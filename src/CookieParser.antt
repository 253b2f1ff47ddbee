-- ===== src/CookieParser.antt =====
-- Parsing of src/cookie-parser.ts beside the matching of domains and paths, which Cookies.Domains has.
pub mod Dates
pub mod SetCookie
pub mod Formatting
pub mod Splitting
pub mod Addresses
pub mod PublicSuffix
pub mod Punycode
pub mod Characters
pub mod Accepted
pub mod OneCookie
