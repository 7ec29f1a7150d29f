-- ===== src/Messages/Bounds.antt =====
-- Bounds that internal/handlers/messages.go keeps: the page of a list (`parseLimitOffset`) and the
-- text shown of a body (the loop of `extractShortText`).
use fmsg_webapi.Prelude.{
  ℕ, ◌≤◌, ◌<◌, ◌≡◌, sym, ap, true, false, Option, none, some, arith, ltb, if◌then◌else◌, Bool-cases,
  some-eq, length, take, Text, Bool-cases,
}
use fmsg_webapi.Emoji.Utf8.{decode}
use fmsg_webapi.Prelude.Int.{ℤ, pos, negsuc}
use fmsg_webapi.Db.{is_some}

-- A parameter of the query string: absent or empty, a number that strconv.Atoi reads, or neither.
pub data Param : Type 0 where
  no_param : Param
  number : ℤ → Param
  no_number : Param

abbrev limit_of : Param → Option ℕ
limit_of no_param = some 20
limit_of no_number = none
limit_of (number (negsuc n)) = none
limit_of (number (pos n)) = if ltb n 1 then none else if ltb 100 n then some 100 else some n

abbrev offset_of : Param → Option ℕ
offset_of no_param = some 0
offset_of no_number = none
offset_of (number (negsuc n)) = none
offset_of (number (pos n)) = some n

abbrev paged : Option ℕ → Option ℕ → Option (ℕ × ℕ)
paged none offset = none
paged (some limit) none = none
paged (some limit) (some offset) = some (limit, offset)

-- `parseLimitOffset`; `none` is the answer 400.
unfoldable pub parse_limit_offset : Param → Param → Option (ℕ × ℕ)
parse_limit_offset limit offset = paged (limit_of limit) (offset_of offset)

limit-bounds : (p : Param) (n : ℕ) → limit_of p ≡ some n → (1 ≤ n) × (n ≤ 100)
limit-bounds no_param n h = let e = some-eq h in rw (← e) (omega arith, omega arith)
limit-bounds (number (negsuc k)) n h = cc h
limit-bounds (number (pos k)) n h = ground arith
limit-bounds no_number n h = cc h

paged-parts :
    (l o : Option ℕ) (limit offset : ℕ)
    → paged l o ≡ some (limit, offset)
    → (l ≡ some limit) × (o ≡ some offset)
paged-parts none o limit offset h = cc h
paged-parts (some l) none limit offset h = cc h
paged-parts (some l) (some o) limit offset h =
    let e = some-eq h in (ap (λ p. some p.0) e, ap (λ p. some p.1) e)

-- The limit that is read from a request lies from 1 to 100: a limit asked for that is at most 100 is
-- taken as it is, and without one the limit is 20.
pub parse_limit_offset-bounds :
    (p q : Param) (limit offset : ℕ)
    → parse_limit_offset p q ≡ some (limit, offset)
    → (1 ≤ limit)
      × (limit ≤ 100)
      × ((n : ℕ) → p ≡ number (pos n) → n ≤ 100 → limit ≡ n)
      × (p ≡ no_param → limit ≡ 20)
unfolding parse_limit_offset
parse_limit_offset-bounds p q limit offset h =
    let (l, _) = paged-parts (limit_of p) (offset_of q) limit offset h in
    let (a, b) = limit-bounds p limit l in
    (a, b, (λ n e le. asked n (rw e at l) le), (λ e. sym (some-eq (rw e at l))))
  where
    asked : (n : ℕ) → limit_of (number (pos n)) ≡ some limit → n ≤ 100 → limit ≡ n
    asked n k le = ground arith

-- The shown text of a body that is read: the longest prefix that is valid UTF-8.
pub record IsLongestValid (buf shown : Text) : Type 0 where
  pub size : ℕ
  pub within : size ≤ length buf
  pub shape : shown ≡ take size buf
  pub valid : is_some (decode shown) ≡ true
  pub longest : (n : ℕ) → size < n → n ≤ length buf → is_some (decode (take n buf)) ≡ false
