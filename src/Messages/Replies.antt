-- ===== src/Messages/Replies.antt =====
-- Whether a reply can be accepted by its recipients' hosts: `parentDeliveryByDomain`,
-- `remoteRecipientDomains` and `undeliverableReplyDomains` of internal/handlers/messages.go. A map
-- by domain is an association list; the reason that is printed for a domain is a value.
use fmsg_webapi.Prelude.{
  ℕ, Bool, true, false, ◌||◌, Option, none, some, List, [], ◌∷◌, ◌++◌, map, if◌then◌else◌, keep,
  ◌==◌, nat_eq, Text, text_eq,
}
use fmsg_webapi.Address.{domain_of}
use fmsg_webapi.Request.{◌>>=◌, Query, fetch, query, pure}
use fmsg_webapi.Models.{Message, AddToBatch}
use fmsg_webapi.Prelude.Int.{ℤ, eqb_ℤ, negsuc}
use fmsg_webapi.Db.{Db, Recipient, is_some, Added, msg_by}
use fmsg_webapi.Strings.{Casing, is_empty, contains}

-- localResponseCodeNoResponse
abbrev pub no_response : ℤ
no_response = negsuc 0

-- localResponseCodeNotOurDelivery
abbrev pub not_our_delivery : ℤ
not_our_delivery = negsuc 1

pub record ParentDomainDelivery : Type 0 where
  pub delivered : Bool
  pub pending : Bool
  pub other_host : Bool
  pub codes : List ℤ

abbrev pub no_delivery : ParentDomainDelivery
no_delivery = record { delivered = false; pending = false; other_host = false; codes = [] }

-- A recipient of the parent, as the query selects it.
pub record DeliveryRow : Type 0 where
  pub addr : Text
  pub delivered : Bool
  pub code : Option ℤ

-- The cases of the `switch`, for a recipient that was not delivered to.
abbrev pub undelivered : Option ℤ → ParentDomainDelivery → ParentDomainDelivery
undelivered none s = record s { pending = true }
undelivered (some c) s =
    if eqb_ℤ c not_our_delivery
    then record s { other_host = true }
    else if eqb_ℤ c no_response
    then record s { pending = true }
    else record s { codes = s.codes ++ c ∷ [] }

abbrev pub with_outcome : DeliveryRow → ParentDomainDelivery → ParentDomainDelivery
with_outcome o s = if o.delivered then record s { delivered = true } else undelivered o.code s

abbrev pub ByDomain : Type 0
ByDomain = List (Text × ParentDomainDelivery)

abbrev pub at_domain : Text → ByDomain → Option ParentDomainDelivery
at_domain key [] = none
at_domain key ((k, s) ∷ m) = if k == key then some s else at_domain key m

abbrev pub put_outcome : Text → DeliveryRow → ByDomain → ByDomain
put_outcome key o [] = (key, with_outcome o no_delivery) ∷ []
put_outcome key o ((k, s) ∷ m) =
    if k == key then (k, with_outcome o s) ∷ m else (k, s) ∷ put_outcome key o m

abbrev pub outcome_rows : ℕ → Db → List DeliveryRow
outcome_rows id db =
    map
      (λ (r : Recipient). record {
        addr = r.addr;
        delivered = is_some r.time_delivered;
        code = r.response_code;
      })
      (keep (λ (r : Recipient). r.msg_id == id) db.recipients)
    ++ map
        (λ (a : Added). record {
          addr = a.addr;
          delivered = is_some a.time_delivered;
          code = a.response_code;
        })
        (keep (λ (a : Added). a.msg_id == id) db.added)

-- Why a domain cannot accept a reply.
pub data Blocked : Type 0 where
  never_addressed : Text → Blocked
  delivery_failed : Text → List ℤ → Blocked

module _ (cs : Casing) where
  abbrev pub key_of : DeliveryRow → Text
  key_of o = cs.to_lower (domain_of o.addr)

  -- The loop over the rows.
  unfoldable pub by_domain : ByDomain → List DeliveryRow → ByDomain
  by_domain m [] = m
  by_domain m (o ∷ os) = by_domain (put_outcome (key_of o) o m) os

  -- `parentDeliveryByDomain`
  unfoldable pub parent_delivery_by_domain : ℕ → Query (Text × ByDomain)
  parent_delivery_by_domain id = (do
    m ← fetch λ db. msg_by id db.msgs
    os ← query (outcome_rows id)
    pure (domain_of m.from, by_domain [] os))

  abbrev pub blocked_by : Text → Option ParentDomainDelivery → List Blocked
  blocked_by d none = never_addressed d ∷ []
  blocked_by d (some s) =
      if s.delivered || s.pending || s.other_host then [] else delivery_failed d s.codes ∷ []

  -- `undeliverableReplyDomains`
  unfoldable pub undeliverable_reply_domains : List Text → Text → ByDomain → List Blocked
  undeliverable_reply_domains [] parent_from m = []
  undeliverable_reply_domains (d ∷ ds) parent_from m =
      if cs.equal_fold d parent_from
      then undeliverable_reply_domains ds parent_from m
      else blocked_by d (at_domain (cs.to_lower d) m)
        ++ undeliverable_reply_domains ds parent_from m

  -- The domains of some addresses that are not seen yet, but for the local one.
  unfoldable pub remote_domains : Text → List Text → List Text → List Text
  remote_domains local_domain seen [] = []
  remote_domains local_domain seen (addr ∷ addrs) =
      let d = domain_of addr in
      let key = cs.to_lower d in
      if is_empty d || cs.equal_fold d local_domain || contains key seen
      then remote_domains local_domain seen addrs
      else d ∷ remote_domains local_domain (key ∷ seen) addrs

  abbrev pub all_added : List AddToBatch → List Text
  all_added [] = []
  all_added (b ∷ bs) = b.to ++ all_added bs

  -- `remoteRecipientDomains`
  abbrev pub remote_recipient_domains : Message → Text → List Text
  remote_recipient_domains m local_domain =
      remote_domains local_domain [] (m.to ++ all_added m.add_to)
