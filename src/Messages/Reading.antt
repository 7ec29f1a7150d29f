-- ===== src/Messages/Reading.antt =====
-- Who may read a message: the conditions of `Get` of internal/handlers/messages.go.
use fmsg_webapi.Prelude.{
  ℕ, ◌≡◌, refl, inl, inr, true, false, ◌||◌, some, List, [], ◌∷◌, map, arith, any, Text,
}
use fmsg_webapi.Messages.Loading.{IsRead}
use fmsg_webapi.Trash.{is_purged, state_in}
use fmsg_webapi.Messages.Access.{may_see}
use fmsg_webapi.Address.{draft_hidden, is_recipient, any_recipient, any_add_to_contains}
use fmsg_webapi.Messages.{
  Site, Db, Message, Msg, msg_by, Recipient, recipient_rows, batches_of, visible_addrs,
}

module _ (s : Site) (addrs : List Text) (identity : Text) where
  -- The message is there, it is no other address's draft, the address sent it or is one of its
  -- recipients, and has not deleted it for good.
  pub record CanRead (id : ℕ) (db : Db) : Type 0 where
    pub row : Msg
    pub found : msg_by id db.msgs ≡ some row
    pub no_draft : draft_hidden s.casing addrs row.from row.time_sent ≡ false
    pub takes_part :
        (is_recipient s.casing addrs row.from
          || any_recipient s.casing addrs
              (map (λ (r : Recipient). r.addr) (recipient_rows row.id db))
          || any_add_to_contains s.casing addrs (batches_of row.id db))
        ≡ true
    pub kept : is_purged (state_in (s.casing.to_lower identity) id db) ≡ false

  any-nothing : (xs : List Text) → any (λ (a : Text). false) xs ≡ false
  any-nothing [] = refl
  any-nothing (a ∷ xs) = any-nothing xs

  -- Parts that could not be loaded let nobody in.
  pub seen-participant :
      (id : ℕ) (db : Db) (msg : Message) (path : Text)
      → (r : IsRead id db msg path) → may_see s addrs msg ≡ true
      → (is_recipient s.casing addrs r.row.from
          || any_recipient s.casing addrs
              (map (λ (r : Recipient). r.addr) (recipient_rows r.row.id db))
          || any_add_to_contains s.casing addrs (batches_of r.row.id db))
        ≡ true
  seen-participant id db msg path r h =
      let k = rw r.shape at h in
      elim r.some_recipients [
        | inl e ↦ elim r.some_batches [
          | inl f ↦ let q = rw (e, f) at k in grind (arith, any-nothing addrs)
          | inr f ↦ let q = rw (e, f) at k in grind (arith, any-nothing addrs)
        ]
        | inr e ↦ elim r.some_batches [
          | inl f ↦ let q = rw (e, f) at k in grind (arith, any-nothing addrs)
          | inr f ↦ let q = rw (e, f) at k in q
        ]
      ]

abbrev pub IsReadable : Site → Text → ℕ → Db → Type 0
IsReadable s caller = CanRead s (visible_addrs s caller) (s.casing.to_lower caller)
