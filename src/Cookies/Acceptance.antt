-- ===== src/Cookies/Acceptance.antt =====
-- What setCookie of src/cookie-store.ts does with a header: it refuses, removes or stores, and
-- stores only what has passed every rule.
