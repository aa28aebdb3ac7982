-- ===== src/Lib.antt =====
-- The XMPP connector joins AllJoyn buses over XMPP: each side turns what happens on its bus into a
-- text message, the transport carries the message to the peer in the roster, and the peer acts on
-- it on a bus attachment of its own. This library models the program's own logic, and proves what
-- makes it correct.
--
-- Which file models which part (paths are from the repository's root):
--   Base: Boolean tests, byte strings, sorted maps and lists. A `std::string` is the list of its
--   bytes, a `std::map` the list of its entries in the order of the keys.
--   SessionTracker: src/common/SessionTracker.cpp, one function for each method.
--   Text: `ReplaceAll`, `EscapeXml`, `UnescapeXml`, `Compress` and `Decompress` of
--   src/common/xmppconnutil.cpp.
--   Transport: the state of src/transport/Transport.cpp, and the calls to its listener as a log.
--   XmppTransport: src/transport/XmppTransport.cpp. `send_impl` and `stop` are in the file itself,
--   the decoding of a body in Body, the callbacks in Handlers, and `RunOnce` with `Run` in Loop. What
--   is asked of libstrophe is a log of requests, and what it delivers is the input of a round.
--   Wire: the messages of src/app/XMPPConnector.cpp. Codes has the codes and the dispatch of
--   `MessageReceived`, Send what each `Send` function writes, Receive what each `Receive` function
--   reads, Objects the bus objects inside, Decimal the numbers. A stream that is only read by
--   `getline` is the list of its lines.
--   RemoteBusAttachment: the sessions of src/app/RemoteBusAttachment.cpp and the handshake of
--   src/app/RemoteBusListener.cpp, in its two parts around the wait; Objects has the bus objects.
--   Connector: which attachment a message of src/app/XMPPConnector.cpp acts on, with the session
--   ports and the well-known names; JoinRequest the recovery of `ReceiveJoinRequest`, Presence the
--   buses and listeners of the sources that come and go, NewAttachment the creation of an
--   attachment with its objects.
--   MsgArg: the arguments of calls as text, namespace util::msgarg of src/common/xmppconnutil.cpp.
--   Print has `ToString`, Parse `FromString` and `VectorFromString`.
--   RemoteBusObject: how src/app/RemoteBusObject.cpp answers a local call from the reply that
--   src/app/Reply.cpp and src/app/ScopedTransactionLocker.cpp hand over. A transaction has the list of
--   the replies that are set from when its lock is taken, which may be empty; a reply that is there
--   already is answered without a wait.
--   Config: src/app/ConfigParser.cpp, over the JSON document that the file holds. How long a document
--   is as text, and what a file is read as that `SetPort` has overwritten, are the parameter
--   `PrettyWriter`.
--   Tests: the theorems at concrete inputs.
--
-- Code that is not the program's own is a parameter: zlib and the hex functions are the record
-- `Library` of Text.Compression, the number functions, `Trim` and `MsgArg::Set` of the AllJoyn core
-- the record `Library` of MsgArg, with the behaviour that is relied on in `Laws` of MsgArg.Valid. What
-- the calls of zlib put out for a text is the hypothesis `PutsOut` of Text.Compression.Laws. What `Set`
-- makes of the integer that it is handed for a `double` is the field `set_double` of the library, of
-- which nothing is assumed.
--
-- A round of zlib that returns `Z_OK` has made progress, so the number of rounds left is the fuel of
-- the loop. `ReplaceAll` has one unit of fuel for each byte of its text and one more, since each
-- replacement moves on in the text; the digits of a number have the number itself. `FromString` has
-- two units for each byte of its text and two more, since a content is shorter than its element and
-- what follows an element is shorter than the text; the search for a closing tag has one for each
-- byte and one more, since each round moves on.
--
-- Not modelled: what the connector asks of the AllJoyn bus once a message is read, but for sessions
-- and replies; the store of the configuration and its services; the interfaces of bus objects and
-- their introspection; the program's start and logging. Threads appear where a step is one locked
-- section.
mod Base
pub mod SessionTracker
pub mod Text
pub mod Transport
pub mod XmppTransport
pub mod Wire
pub mod RemoteBusAttachment
pub mod Connector
pub mod MsgArg
pub mod Config
pub mod RemoteBusObject
mod Tests
