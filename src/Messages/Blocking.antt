-- ===== src/Messages/Blocking.antt =====
-- The domains that `undeliverableReplyDomains` blocks, against a description by the parent's
-- recipients: internal/handlers/messages.go.
use mathlib.Core.List.{append-nil, append_assoc}
use fmsg_webapi.Prelude.{
  ◌≡◌, refl, inl, inr, Bool, true, false, ◌||◌, Option, none, some, List, [], ◌∷◌, ◌++◌, arith,
  if◌then◌else◌, Bool-cases, any, keep, ◌==◌, nat_eq, Text, text_beq_iff, text_eq, Bool-cases,
}
use fmsg_webapi.Prelude.Int.{ℤ, eqb_ℤ}
use fmsg_webapi.Messages.Replies.{
  ParentDomainDelivery, no_delivery, with_outcome, ByDomain, Blocked, by_domain, key_of, at_domain,
  never_addressed, put_outcome, delivery_failed, not_our_delivery, no_response, DeliveryRow,
  blocked_by, undeliverable_reply_domains,
}
use fmsg_webapi.Strings.{Casing}

-- Whether the recipient's host may hold the parent: it was delivered there, or is under way, or
-- was another host's to deliver.
abbrev pub may_hold : DeliveryRow → Bool
may_hold o =
    o.delivered
    || elim o.code [ none ↦ true | some c ↦ eqb_ℤ c not_our_delivery || eqb_ℤ c no_response ]

abbrev pub codes_of : List DeliveryRow → List ℤ
codes_of [] = []
codes_of (o ∷ os) = elim o.code [ none ↦ codes_of os | some c ↦ c ∷ codes_of os ]

-- Why a reply to the domain would be refused, given the parent's recipients there.
abbrev pub reason : Text → List DeliveryRow → List Blocked
reason d [] = never_addressed d ∷ []
reason d (o ∷ os) = if any may_hold (o ∷ os) then [] else delivery_failed d (codes_of (o ∷ os)) ∷ []

abbrev start : Option ParentDomainDelivery → ParentDomainDelivery
start none = no_delivery
start (some s) = s

absorb : Option ParentDomainDelivery → List DeliveryRow → Option ParentDomainDelivery
absorb s [] = s
absorb s (o ∷ os) = absorb (some (with_outcome o (start s))) os

abbrev holds : ParentDomainDelivery → Bool
holds s = s.delivered || s.pending || s.other_host

apart :
    (key k k' : Text) (o : DeliveryRow) (s : ParentDomainDelivery) (m : ByDomain)
    → (k' == k) ≡ false
    → (if k' == key
        then some s
        else if k == key
        then some (with_outcome o (start (at_domain key m)))
        else at_domain key m)
      ≡ (if k == key
          then some (with_outcome o (start (if k' == key then some s else at_domain key m)))
          else if k' == key
          then some s
          else at_domain key m)
apart key k k' o s m e = grind (arith, text_beq_iff k' k, text_beq_iff k' key, text_beq_iff k key)

at-put :
    (key k : Text) (o : DeliveryRow) (m : ByDomain)
    → at_domain key (put_outcome k o m)
      ≡ (if k == key then some (with_outcome o (start (at_domain key m))) else at_domain key m)
at-put key k o [] = refl
at-put key k o ((k', s) ∷ m) = elim (Bool-cases (k' == k)) [
  | inl e ↦ grind (arith, text_beq_iff k' k, text_beq_iff k' key, text_beq_iff k key)
  | inr e ↦ rw (e, at-put key k o m) (apart key k k' o s m e)
]

module _ (cs : Casing) where
  abbrev pub at_key : Text → List DeliveryRow → List DeliveryRow
  at_key key os = keep (λ o. key_of cs o == key) os

  -- The reasons for the domains but the parent's sender's, which keeps what it sends.
  abbrev pub reasons : List Text → Text → List DeliveryRow → List Blocked
  reasons [] parent_from os = []
  reasons (d ∷ ds) parent_from os =
      if cs.equal_fold d parent_from
      then reasons ds parent_from os
      else reason d (at_key (cs.to_lower d) os) ++ reasons ds parent_from os

  at-by_domain :
      (key : Text) (m : ByDomain) (os : List DeliveryRow)
      → at_domain key (by_domain cs m os) ≡ absorb (at_domain key m) (at_key key os)
  unfolding by_domain absorb
  at-by_domain key m [] = refl
  at-by_domain key m (o ∷ os) =
      rw (at-by_domain key (put_outcome (key_of cs o) o m) os, at-put) (ground arith)

  quiet :
      (d : Text) (s : ParentDomainDelivery) (os : List DeliveryRow)
      → blocked_by cs d (absorb (some s) os) ≡ (
          if holds s || any may_hold os
          then []
          else delivery_failed d (s.codes ++ codes_of os) ∷ [])
  unfolding absorb
  quiet d s [] = rw (append-nil s.codes) (ground arith)
  quiet d s (o ∷ os) = rw (quiet d (with_outcome o s) os) grind (arith, append_assoc)

  blocked-eq-reason :
      (d : Text) (os : List DeliveryRow) → blocked_by cs d (absorb none os) ≡ reason d os
  unfolding absorb
  blocked-eq-reason d [] = refl
  blocked-eq-reason d (o ∷ os) = rw (quiet d (with_outcome o no_delivery) os) (ground arith)

  -- The domains that block a reply, and why, are what the parent's recipients say: a domain of the
  -- reply blocks it unless it is the parent's sender's or some recipient of the parent there was
  -- delivered to, has no final outcome yet, or was another host's to deliver; it was never
  -- addressed if the parent has no recipient there, and otherwise every delivery there failed, with
  -- the codes of all of them in order.
  pub undeliverable-eq-reasons :
      (ds : List Text) (parent_from : Text) (os : List DeliveryRow)
      → undeliverable_reply_domains cs ds parent_from (by_domain cs [] os)
        ≡ reasons ds parent_from os
  unfolding undeliverable_reply_domains
  undeliverable-eq-reasons [] parent_from os = refl
  undeliverable-eq-reasons (d ∷ ds) parent_from os =
      rw
        (
          undeliverable-eq-reasons ds parent_from os,
          at-by_domain (cs.to_lower d) [] os,
          blocked-eq-reason d (at_key (cs.to_lower d) os),
        )
        refl
