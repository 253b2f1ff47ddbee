-- ===== src/Tests/CookieHeaders.antt =====
-- Runs of the parsers of cookies, and their theorems at concrete headers.
use kinetex.Base.{
  ◌≡◌, refl, [], ◌∷◌, none, some, text_discrete, codes, Text, true, false, ℕ_discrete,
  to_lower_text,
}
use kinetex.JsMap
use kinetex.Numbers.{pos, negsuc}
use kinetex.Strings.{trim_start, trim_end, trim, split, join, cut}
use kinetex.Cookies.Domains.{canonicalize_domain, split_at, join_with}
use kinetex.CookieParser.Dates
use kinetex.CookieParser.Dates.{parse_cookie_date}
use kinetex.CookieParser.SetCookie
use kinetex.CookieParser.SetCookie.{ParsedCookie, parse_set_cookie_header, unset, lax, unrestricted}
use kinetex.CookieParser.Formatting.{format_set_cookie_header}
use kinetex.CookieParser.Splitting
use kinetex.CookieParser.Splitting.{split_set_cookie_headers}
use kinetex.CookieParser.Accepted.{Accepted, parse_set_cookie_header-Accepted}
use kinetex.CookieParser.OneCookie.{split_one_cookie}
use kinetex.CookieParser.Addresses
use kinetex.CookieParser.PublicSuffix
use kinetex.CookieParser.Punycode

program : Unit {0}
unfolding JsMap.get JsMap.set JsMap.has text_discrete ℕ_discrete to_lower_text trim_start trim_end
    trim split join cut canonicalize_domain split_at join_with Dates.tokenize_date
    Dates.parse_time_token Dates.parse_month_token Dates.parse_year_token Dates.numeric_token
    Dates.year_or_none Dates.put_month Dates.try_month Dates.put_token Dates.date_utc
    Dates.finish_date parse_cookie_date SetCookie.is_valid_cookie_name
    SetCookie.is_valid_cookie_value SetCookie.name_value SetCookie.put_pair SetCookie.put_attribute
    SetCookie.put_attributes SetCookie.attribute SetCookie.flag SetCookie.same_site_of
    SetCookie.priority_of SetCookie.expires_of SetCookie.domain_of SetCookie.with_attributes
    SetCookie.parse_pair SetCookie.parse_filled parse_set_cookie_header format_set_cookie_header
    Splitting.continues_current_cookie Splitting.commit_cookie Splitting.put_comma
    Splitting.put_blank Splitting.split_from split_set_cookie_headers Addresses.has_quad_form
    Addresses.is_quad Addresses.without_quad Addresses.split_elisions Addresses.group_count
    Addresses.right_groups Addresses.right_form Addresses.is_ipv6_literal Addresses.is_ip_address
    PublicSuffix.add_rule PublicSuffix.load_rules PublicSuffix.best_exact PublicSuffix.best_wildcard
    PublicSuffix.or_last PublicSuffix.suffix_of PublicSuffix.get_public_suffix
    PublicSuffix.parent_is_wildcard PublicSuffix.is_public_suffix PublicSuffix.registrable
    PublicSuffix.behind_suffix PublicSuffix.get_registrable_domain Punycode.adapt
    Punycode.put_code_point Punycode.put_digit Punycode.decode_from Punycode.decode_parts
    Punycode.decode_punycode
program = tt

dates :
    (parse_cookie_date (codes "Thu, 01 Jan 1970 00:00:10 GMT") ≡ some (pos 10000))
    × (parse_cookie_date (codes "Thursday, 01-Jan-99 00:00:00 GMT") ≡ some (pos 915148800000))
    × (parse_cookie_date (codes "Tue Feb 29 12:30:05 2000") ≡ some (pos 951827405000))
    × (parse_cookie_date (codes "01 Jan 1600 00:00:00") ≡ none)
    × (parse_cookie_date (codes "1st Jan 1969 23:59:59") ≡ some (negsuc 31449600999))
unfolding program
dates = (refl, refl, refl, refl, refl)

abbrev no_decoding : Text → Text
no_decoding s = s

abbrev session : ParsedCookie
session = record {
  name = codes "sid";
  value = codes "a b";
  domain = some (codes "example.com");
  path = some (codes "/x");
  expires = none;
  max_age = some (negsuc 4);
  secure = true;
  http_only = false;
  same_site = lax;
  same_party = false;
  priority = none;
  partitioned = false;
}

header_of_session :
    parse_set_cookie_header no_decoding (
      codes
        "sid=\"a b\"; Domain=.Example.com; Path=/x; Path=/y; Max-Age=-5; Secure; SameSite=LAX; Expires=Thu, 01 Jan 1970 00:00:10 GMT")
    ≡ some session
unfolding program
header_of_session = refl

split_headers :
    split_set_cookie_headers (codes "a=1; Expires=Thu, 01 Jan 2099 00:00:00 GMT, b=\"x,y\", c=3")
    ≡ codes "a=1; Expires=Thu, 01 Jan 2099 00:00:00 GMT" ∷ codes "b=\"x,y\"" ∷ codes "c=3" ∷ []
unfolding program
split_headers = refl

addresses :
    (Addresses.is_ip_address (codes "1.2.3.255") ≡ true)
    × (Addresses.is_ip_address (codes "1.2.3.256") ≡ false)
    × (Addresses.is_ip_address (codes "[::1]") ≡ true)
    × (Addresses.is_ip_address (codes "::ffff:1.2.3.4") ≡ true)
    × (Addresses.is_ip_address (codes "cafe:babe") ≡ false)
unfolding program
addresses = (refl, refl, refl, refl, refl)

abbrev some_rules : PublicSuffix.Rules
unfolding program
some_rules =
    PublicSuffix.load_rules (codes "com" ∷ codes "co.uk" ∷ codes "*.ck" ∷ codes "!www.ck" ∷ [])

suffixes :
    (PublicSuffix.get_public_suffix some_rules (codes "www.example.co.uk.") ≡ some (codes "co.uk"))
    × (PublicSuffix.get_public_suffix some_rules (codes "a.b.ck") ≡ some (codes "b.ck"))
    × (PublicSuffix.get_registrable_domain Addresses.is_ip_address some_rules
          (codes "a.Example.com")
        ≡ some (codes "example.com"))
unfolding program
suffixes = (refl, refl, refl)

-- The A-label of the Chinese word for China.
decoded_label : Punycode.decode_punycode (codes "fiqs8s") ≡ 0x4e2d ∷ 0x56fd ∷ []
unfolding program
decoded_label = refl

-- A value with a semicolon is put in quotes, which the parser does not heed.
quoted_semicolon :
    parse_set_cookie_header no_decoding (
      format_set_cookie_header
        (λ n. [])
        (λ n. [])
        (record session { value = codes "a;b"; max_age = none }))
    ≡ some (record session { value = codes "\"a"; max_age = none })
unfolding program
quoted_semicolon = refl

parse_set_cookie_header-Accepted_example : Accepted session
unfolding program
parse_set_cookie_header-Accepted_example =
    parse_set_cookie_header-Accepted no_decoding
      (codes
        "sid=\"a b\"; Domain=.Example.com; Path=/x; Path=/y; Max-Age=-5; Secure; SameSite=LAX; Expires=Thu, 01 Jan 1970 00:00:10 GMT")
      session refl

split_one_cookie_example :
    split_set_cookie_headers (codes " a=1; Path=/ ;Secure ")
    ≡ trim (codes " a=1; Path=/ ;Secure ") ∷ []
unfolding program
split_one_cookie_example = split_one_cookie (codes " a=1; Path=/ ;Secure ") refl refl

-- An attribute without a value takes the place of an earlier one with a value.
bare_attribute_wins :
    SetCookie.put_attributes (codes "Path=/x" ∷ codes "Path" ∷ []) [] ≡ (codes "path", []) ∷ []
unfolding program
bare_attribute_wins = refl

-- A quote mark in a value is escaped in a header, and comes back with its backslash.
escaped_quote :
    parse_set_cookie_header no_decoding (
      format_set_cookie_header
        (λ n. [])
        (λ n. [])
        (record session { value = codes "a\"b"; max_age = none }))
    ≡ some (record session { value = codes "a\\\"b"; max_age = none })
unfolding program
escaped_quote = refl

exception_is_suffix :
    PublicSuffix.get_public_suffix some_rules (codes "www.ck") ≡ some (codes "www.ck")
unfolding program
exception_is_suffix = refl
