-- ===== src/Hub.antt =====
-- internal/handlers/hub.go: which connections get which event. A connection is a number. What the
-- hub reads of the database is a field of `Sources`: `build_item` is a message as an address sees
-- it, with whether the address has deleted it for good, or an error.
pub mod Registry
pub mod Privacy
use fmsg_webapi.Prelude.{
  ℕ, ◌*◌, Bool, not, ◌||◌, Option, none, some, List, [], ◌∷◌, ◌++◌, ltb, if◌then◌else◌, any, keep,
  ◌==◌, nat_eq, Text, codes, text_eq,
}
use fmsg_webapi.Strings.{Casing, is_nil, is_empty, contains, cut}
use fmsg_webapi.Auth.Scopes.{lookup}

abbrev pub Registry : Type 0
Registry = List (Text × List ℕ)

abbrev pub is_member : ℕ → List ℕ → Bool
is_member c set = any (λ d. d == c) set

abbrev pub insert : ℕ → List ℕ → List ℕ
insert c set = if is_member c set then set else c ∷ set

abbrev pub without : ℕ → List ℕ → List ℕ
without c set = keep (λ d. not (d == c)) set

-- `Register`
unfoldable pub register : ℕ → Text → Registry → Registry
register c addr [] = (addr, c ∷ []) ∷ []
register c addr ((a, set) ∷ r) =
    if a == addr then (a, insert c set) ∷ r else (a, set) ∷ register c addr r

-- `Unregister`
unfoldable pub unregister : ℕ → Text → Registry → Registry
unregister c addr [] = []
unregister c addr ((a, set) ∷ r) =
    if a == addr
    then if is_nil (without c set) then r else (a, without c set) ∷ r
    else (a, set) ∷ unregister c addr r

abbrev pub from_entry : Option (List ℕ) → List ℕ
from_entry none = []
from_entry (some set) = set

abbrev pub clients_at : Text → Registry → List ℕ
clients_at addr r = from_entry (lookup addr r)

-- `clientsOf`
abbrev pub clients_of : Casing → Registry → Text → List ℕ
clients_of cs r addr = clients_at (cs.to_lower addr) r

pub data EventType : Type 0 where
  new_msg delivered recipients_added reaction read trash indicator : EventType

pub record Indicator : Type 0 where
  pub id : ℕ
  pub root_id : ℕ
  pub from : Text
  pub emoji : Text
  pub ttl : ℕ

-- What an event carries: a message, the id of one deleted for good, or an indicator.
pub data Payload : Type 0 where
  item : Text → Payload
  gone : ℕ → Payload
  shown : Indicator → Payload

pub record Envelope : Type 0 where
  pub kind : EventType
  pub payload : Payload

pub record Sources : Type 0 where
  pub casing : Casing
  pub build_item : ℕ → Text → Option (Bool × Text)
  pub reaction_subject : ℕ → Option ℕ
  pub indicator_audience : ℕ → Option (List Text × ℕ)
  pub is_full : ℕ → Bool

-- What the hub does to a connection or outside: a frame is queued, a slow connection is closed, or
-- a Web Push is started.
pub data Action : Type 0 where
  queued : ℕ → Envelope → Action
  closed : ℕ → Action
  pushed : ℕ → Text → Action

module _ (s : Sources) (r : Registry) where
  -- `send`
  unfoldable pub send : List ℕ → Envelope → List Action
  send [] e = []
  send (c ∷ cs) e = (if s.is_full c then closed c else queued c e) ∷ send cs e

  abbrev pub envelope : EventType → Payload → Envelope
  envelope kind payload = record { kind = kind; payload = payload }

  abbrev pub dispatched : List ℕ → EventType → Option (Bool × Text) → List Action
  dispatched clients kind none = []
  dispatched clients kind (some (purged, m)) =
      if purged then [] else send clients (envelope kind (item m))

  -- `dispatch`
  unfoldable pub dispatch : ℕ → Text → EventType → List Action
  dispatch id addr kind =
      if is_nil (clients_of s.casing r addr)
      then []
      else dispatched (clients_of s.casing r addr) kind (s.build_item id addr)

  abbrev pub trash_payload : ℕ → Option (Bool × Text) → Payload
  trash_payload id none = gone id
  trash_payload id (some (purged, m)) = if purged then gone id else item m

  -- `dispatchTrash`
  unfoldable pub dispatch_trash : ℕ → Text → List Action
  dispatch_trash id addr =
      if is_nil (clients_of s.casing r addr)
      then []
      else send (clients_of s.casing r addr)
          (envelope trash (trash_payload id (s.build_item id addr)))

  -- The channels that the hub listens on, the indicators' aside.
  abbrev pub new_msg_actions : ℕ → Text → List Action
  new_msg_actions id addr = elim (s.reaction_subject id) [
    | some subject ↦ dispatch subject addr reaction
    | none ↦ pushed id addr ∷ dispatch id addr new_msg
  ]

  -- `route`; the push runs in a goroutine of its own.
  unfoldable pub route : Text → ℕ → Text → List Action
  route channel id addr =
      if channel == codes "new_msg"
      then new_msg_actions id addr
      else if channel == codes "delivered"
      then dispatch id addr delivered
      else if channel == codes "msg_read"
      then dispatch id addr read
      else if channel == codes "msg_trash"
      then dispatch_trash id addr
      else if channel == codes "recipients_added"
      then dispatch id addr recipients_added
      else []

  -- The connections of the audience, each address once.
  pub audience_clients : List Text → List Text → List ℕ
  audience_clients seen [] = []
  audience_clients seen (a ∷ addrs) =
      if contains (s.casing.to_lower a) seen
      then audience_clients seen addrs
      else clients_of s.casing r a ++ audience_clients (s.casing.to_lower a ∷ seen) addrs

  abbrev pub shown_to : Indicator → Option (List Text × ℕ) → List Action
  shown_to ind none = []
  shown_to ind (some (addrs, root)) =
      send (audience_clients (s.casing.to_lower ind.from ∷ []) addrs)
        (envelope indicator (shown (record ind { root_id = root })))

  -- `routeIndicator`, on a payload that parses.
  pub route_indicator : Indicator → List Action
  route_indicator ind =
      if ind.id == 0 || is_empty ind.from then [] else shown_to ind (s.indicator_audience ind.id)

-- The pause before the hub connects again, in seconds: doubled while below the limit, and one
-- second after a connection that listened.
abbrev pub max_backoff : ℕ
max_backoff = 30

pub next_backoff : Bool → ℕ → ℕ × ℕ
next_backoff connected backoff =
    let pause = if connected then 1 else backoff in
    (pause, if ltb pause max_backoff then pause * 2 else pause)
