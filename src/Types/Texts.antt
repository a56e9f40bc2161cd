-- ===== src/Types/Texts.antt =====
-- Strings that the program compares (identifiers, dates, timestamps, versions).
use readyon.Base.{ℕ, Bool, not, Option, none, some, ◌==◌, if◌then◌else◌}

-- The code only tests such strings for equality, order and emptiness. Any finite set of strings
-- has an order-preserving numbering with the empty string at 0, and a `Text` is such a number.
abbrev pub Text : Type 0
Text = ℕ

-- The empty string, which JavaScript takes as false.
abbrev pub empty_text : Text
empty_text = 0

-- 'HQ'
abbrev pub hq : Text
hq = 1

abbrev pub is_truthy : Text → Bool
is_truthy t = not (t == empty_text)

-- `x || fallback`, for an `x` that may be missing.
abbrev pub or_default : Option Text → Text → Text
or_default none fallback = fallback
or_default (some t) fallback = if is_truthy t then t else fallback

-- `if (x)`, for an `x` that may be missing.
abbrev pub is_given : Option Text → Bool
is_given none = Bool.false
is_given (some t) = is_truthy t

-- `x || null`
abbrev pub or_null : Option Text → Option Text
or_null none = none
or_null (some t) = if is_truthy t then some t else none
