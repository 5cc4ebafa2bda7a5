-- ===== src/Messaging/Nats.antt =====
-- core/messaging/nats/nats.go.
pub mod Delivery
use muto.Prelude.{
  String, ◌==◌, Bool, Option, none, some, List, [], ◌∷◌, Result, ok, err, if◌then◌else◌, ◌<>◌,
}
use muto.Prelude.Dict.{Dict, insert}
use muto.Messaging.{Config, MsgHandler}

-- nats.go. `W` is the server and the open connections, `C` names the connections, `J` the JetStream
-- contexts, `U` the subscriptions; a message knows its subject and data.
pub record Nats (W C J U M : Type 0) : Type 0 where
  pub connect : W → String → Option (String × String) → W × Result String C
  pub jet_stream : W → C → W × Result String J
  pub publish : W → J → String → M → W × Option String
  pub subscribe : W → J → String → W × Result String U
  pub unsubscribe : W → U → W × Option String
  pub close : W → C → W
  pub ack : W → M → W × Option String
  pub nak : W → M → W × Option String
  pub subject : M → String

pub data Error : Type 0 where
  connect_failed jetstream_failed : String → Error

pub record NatsBus (C J U : Type 0) : Type 0 where
  pub conn : C
  pub js : J
  pub subs : Dict U

-- `strings.Join(urls, ",")`
abbrev pub join : List String → String
join [] = ""
join (url ∷ []) = url
join (url ∷ next ∷ rest) = url <> ("," <> join (next ∷ rest))

abbrev pub user_info : Config → Option (String × String)
user_info cfg = if cfg.username == "" then none else some (cfg.username, cfg.password)

module _ {W C J U M : Type 0} (nats : Nats W C J U M) where
  with_stream : C → W × Result String J → W × Result Error (NatsBus C J U)
  with_stream conn (w, err e) = (nats.close w conn, err (jetstream_failed e))
  with_stream conn (w, ok js) = (w, ok (record { conn = conn; js = js; subs = [] }))

  connected : W × Result String C → W × Result Error (NatsBus C J U)
  unfolding with_stream
  connected (w, err e) = (w, err (connect_failed e))
  connected (w, ok conn) = with_stream conn (nats.jet_stream w conn)

  unfoldable pub new : W → Config → W × Result Error (NatsBus C J U)
  unfolding connected
  new w cfg = connected (nats.connect w (join cfg.urls) (user_info cfg))

  unfoldable pub publish : W → NatsBus C J U → String → M → W × Option String
  publish w b topic msg = nats.publish w b.js topic msg

  subscribed : NatsBus C J U → String → W × Result String U → W × NatsBus C J U × Option String
  subscribed b topic (w, err e) = (w, b, some e)
  subscribed b topic (w, ok sub) = (w, record b { subs = insert topic sub b.subs }, none)

  unfoldable pub subscribe : W → NatsBus C J U → String → W × NatsBus C J U × Option String
  unfolding subscribed
  subscribe w b topic = subscribed b topic (nats.subscribe w b.js topic)

  acknowledge : {S : Type 0} → W → M → S × Option String → W × S
  acknowledge w m (s, some e) = ((nats.nak w m).0, s)
  acknowledge w m (s, none) = ((nats.ack w m).0, s)

  -- The callback of Subscribe, on a message of the subscription.
  unfoldable pub deliver : {S : Type 0} → MsgHandler S M → W → M → S → W × S
  unfolding acknowledge
  deliver handler w m s = acknowledge w m (handler (nats.subject m) m s)

  unfoldable pub unsubscribe_all : W → Dict U → W
  unsubscribe_all w [] = w
  unsubscribe_all w ((topic, sub) ∷ rest) = unsubscribe_all (nats.unsubscribe w sub).0 rest

  -- Close; its error is always nil.
  unfoldable pub close : W → NatsBus C J U → W × NatsBus C J U
  close w b = (nats.close (unsubscribe_all w b.subs) b.conn, record b { subs = [] })
