-- ===== src/Address.antt =====
-- fmsg addresses, "@user@domain": internal/middleware/jwt.go (IsValidAddr) and
-- internal/handlers/messages.go (parseAddr and the tests on lists of recipients).
use fmsg_webapi.Prelude.{
  ℕ, Bool, false, not, ◌&&◌, Option, none, some, List, [], ◌∷◌, ltb, if◌then◌else◌, length, any,
  ◌==◌, nat_eq, Text, text_eq,
}
use fmsg_webapi.Models.{AddToBatch}
use fmsg_webapi.Strings.{Casing, contains_byte, contains, cut_last}

abbrev pub at_sign : ℕ
at_sign = b'@'

-- The tests after the length test: the first byte, and a second at sign.
abbrev second_at : Text → Bool
second_at [] = false
second_at (c ∷ rest) = c == at_sign && contains_byte at_sign rest

unfoldable pub is_valid_addr : Text → Bool
unfolding contains_byte
is_valid_addr addr = if ltb (length addr) 3 then false else second_at addr

abbrev user_domain : Text → Text × Text
user_domain [] = ([], [])
user_domain (_ ∷ rest) = elim (cut_last at_sign rest) [ none ↦ (rest, []) | some p ↦ p ]

-- The user and the domain.
unfoldable pub parse_addr : Text → Text × Text
unfolding cut_last
parse_addr addr = if ltb (length addr) 3 then (addr, []) else user_domain addr

abbrev pub domain_of : Text → Text
domain_of addr = (parse_addr addr).1

module _ (cs : Casing) where
  abbrev pub same_addr : Text → Text → Bool
  same_addr a b = cs.equal_fold a b

  abbrev pub is_recipient : List Text → Text → Bool
  is_recipient to addr = any (λ a. cs.equal_fold a addr) to

  abbrev pub add_to_contains : List AddToBatch → Text → Bool
  add_to_contains batches addr = any (λ b. is_recipient b.to addr) batches

  abbrev pub any_recipient : List Text → List Text → Bool
  any_recipient addrs to = any (λ a. is_recipient to a) addrs

  abbrev pub any_add_to_contains : List Text → List AddToBatch → Bool
  any_add_to_contains addrs batches = any (λ a. add_to_contains batches a) addrs

  -- A draft is its sender's alone.
  abbrev pub draft_hidden : List Text → Text → Option ℕ → Bool
  draft_hidden addrs from none = not (is_recipient addrs from)
  draft_hidden addrs from (some _) = false

  -- One of the two loops of `checkDistinctRecipients`: the first address seen before, if any.
  unfoldable pub first_duplicate : List Text → List Text → Option Text
  first_duplicate seen [] = none
  first_duplicate seen (addr ∷ to) =
      if contains (cs.to_lower addr) seen
      then some addr
      else first_duplicate (cs.to_lower addr ∷ seen) to

  -- `none` if both lists are without duplicates.
  unfoldable pub check_distinct_recipients : List Text → List Text → Option Text
  check_distinct_recipients to add_to = elim (first_duplicate [] to) [
    | some addr ↦ some addr
    | none ↦ first_duplicate [] add_to
  ]
