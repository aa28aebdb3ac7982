-- ===== src/XmppTransport/Xml.antt =====
-- A stanza as libstrophe holds it: an element with its attributes in the order they were set, or a
-- text. `xmpp_stanza_set_type`, `_set_id` and `_set_ns` set the attributes `type`, `id`, `xmlns`.
use xmppconn.Base.{List, Bytes}

mutual
  pub data Stanza : Type 0 where
    element : Bytes → List (Bytes × Bytes) → Stanzas → Stanza
    text : Bytes → Stanza

  pub data Stanzas : Type 0 where
    nil : Stanzas
    cons : Stanza → Stanzas → Stanzas
