-- ===== src/Hub/Privacy.antt =====
-- What the hub of internal/handlers/hub.go sends of a message, and to whom.
use fmsg_webapi.Prelude.{
  ℕ, ◌≡◌, ◌⊎◌, false, some, Bool-cases, In, nat_eq, Text, text_eq, Bool-cases,
}
use fmsg_webapi.Hub.{Registry, Sources, Envelope, EventType, item, clients_of, trash, gone}

-- A frame that reaches a connection carries the message as the address sees it.
record IsShown (s : Sources) (r : Registry) (id : ℕ) (addr : Text) (kind : EventType) (c : ℕ)
    (e : Envelope) : Type 0 where
  client : In c (clients_of s.casing r addr)
  kept_kind : e.kind ≡ kind
  text : Text
  visible : s.build_item id addr ≡ some (false, text)
  carried : e.payload ≡ item text

-- What a frame for an address carries: the message of the notification, or the subject of this
-- reaction, as the address sees it, which has not deleted it for good; or, in an event of the trash,
-- only an id.
pub data IsCarried (s : Sources) (id : ℕ) (addr : Text) (e : Envelope) : Type 0 where
  shown :
      (m : ℕ) (text : Text)
      → (m ≡ id) ⊎ (s.reaction_subject id ≡ some m)
      → s.build_item m addr ≡ some (false, text)
      → e.payload ≡ item text
      → IsCarried s id addr e
  only_id : e.kind ≡ trash → e.payload ≡ gone id → IsCarried s id addr e

module _ (s : Sources) (r : Registry) (id : ℕ) (addr : Text) (c : ℕ) (e : Envelope) where
  IsPrivate : Type 0
  IsPrivate = In c (clients_of s.casing r addr) × IsCarried s id addr e
