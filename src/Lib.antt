-- ===== src/Lib.antt =====
-- Models of the Rust crates of this repository: the prepaid and settlement ledgers and the metering
-- of `broker-billing`, the reverse-tunnel ingress of `reachability-adapter`, and the mail gateway of
-- `gateway`: its outbound sender guard and alias store, SPF, forwarded addresses, account
-- authorisation, and the inbound SMTP session; with the theorems that make them correct.
--
-- How the parts interact. A box connects to the adapter, proves its key (`auth.rs`), and its tunnel is
-- entered in a table under a name (`tunnel.rs`). A public client's connection is peeked at for the
-- server name of its ClientHello (`sni.rs`), and is spliced to the tunnel of that name or reset
-- (`ingress.rs`). Usage is metered by payer and kind (`meter.rs`), priced by a schedule (`tariff.rs`),
-- and paid from prepaid credit (`prepaid.rs`) or charged over a rail (`settlement.rs`,
-- `subscription.rs`), and receipted (`receipt.rs`). The mail gateway lets an authenticated account
-- send within its limits (`outbound_guard.rs`) and forwards mail for the aliases that it minted
-- (`alias_map.rs`). It admits a key that signs a fresh challenge, gives it a vanity name or a name
-- derived from the key, and charges what it relays against a quota (`authz.rs`), reporting it to a
-- meter (`provenance.rs`). A session of its SMTP server (`inbound.rs`) asks the cold-sender gate and
-- SPF (`spf.rs`) about the sender, accepts recipients, and collects the message. An address of a
-- foreign domain is carried in one local part (`forwarded_addr.rs`).
--
-- Which file models what:
--   Base             shared names: Boolean tests, lists over native numbers, maps as association lists
--                    with one entry for each key, machine words, UTF-8, Unicode whitespace; Base/Text
--                    has the operations on strings, as operations on their bytes
--   Billing/Kind     crates/broker-billing/src/meter.rs: `ResourceKind` and its wire tags; a map from
--                    kinds to counts is a function from kinds to optional counts
--   Billing/Meter    crates/broker-billing/src/meter.rs: `InMemoryMeter` (record_units is `record`)
--   Billing/Tariff   crates/broker-billing/src/tariff.rs: `TariffSchedule::evaluate`
--   Billing/Prepaid  crates/broker-billing/src/prepaid.rs: `PrepaidLedger`
--   Billing/Receipt  crates/broker-billing/src/receipt.rs: `ReceiptLog`, with `debit_and_receipt` of
--                    prepaid.rs
--   Billing/Settlement
--                    crates/broker-billing/src/settlement.rs: `InMemoryLedger`, with stake.rs and
--                    subscription.rs
--   Reach/Registry   crates/reachability-adapter/src/tunnel.rs: `TunnelRegistry`, `RegistrationGuard`
--   Reach/Wire       crates/reachability-adapter/src/tunnel.rs: the registration frame
--   Reach/Reader     the reading of a byte string from its front that Wire and Sni share
--   Reach/Sni        crates/reachability-adapter/src/sni.rs: the parser and `peek_client_hello`
--   Reach/Ingress    crates/reachability-adapter/src/ingress.rs: `handle_ingress_connection`
--   Reach/Accept     crates/reachability-adapter/src/ingress.rs: `accept_box_connection`, with the
--                    box's side of the handshake of auth.rs
--   Reach/Auth       crates/reachability-adapter/src/auth.rs: `NonceRegistry` and the handshake
--   Gateway/Guard    crates/gateway/src/outbound_guard.rs: `OutboundSenderGuard`
--   Gateway/Alias    crates/gateway/src/alias_map.rs: `GatewayAliasMap`
--   Gateway/Spf      crates/gateway/src/spf.rs: addresses and prefixes (Address), records (Record), the
--                    evaluator (Evaluator, Check), `InMemorySpfResolver` (Memory), and the policy that
--                    a record states, with no limits on lookups (Policy)
--   Gateway/Forwarded
--                    crates/gateway/src/forwarded_addr.rs: `encode` and `decode`
--   Gateway/Vanity   crates/gateway/src/authz.rs: `AliasAllocator` and the names derived from keys
--   Gateway/Quota    crates/gateway/src/authz.rs: `QuotaLedger`, with the counting meter of
--                    crates/gateway/src/provenance.rs
--   Gateway/Admission
--                    crates/gateway/src/authz.rs: `IdentityRegistry` and its challenges
--   Gateway/Cold     crates/gateway/src/inbound.rs: `ColdSenderGate`
--   Gateway/Smtp, Gateway/Session
--                    crates/gateway/src/inbound.rs: the state and the replies of `MxSession`, and its
--                    handling of a line
--   Tests            concrete runs, and each theorem applied to concrete values
-- A method keeps the name of the Rust function, takes the state before it and returns the state after
-- it beside its result. A history is a list of calls, one after another. The meter, the tables, the
-- nonces and the guards hold one mutex throughout a call, so that concurrent calls are such a history;
-- the two ledgers of `broker-billing` take several locks in turn in a call, and their calls are
-- modelled as not overlapping. `admit` takes its nonce lock twice, for the reading of a nonce and for
-- its removal, and is modelled as not overlapping too.
--
-- Bounds and fuel. Unsigned integers are natural numbers with saturation and wrap-around written
-- out; an `i64` is its two's complement word. Overflow wraps and the count of a shift is taken
-- modulo the width, as in a release build; the counters of an SPF evaluation are unbounded, since
-- their limits stop it long before a `u32` is full. The loops of the ClientHello parser run on
-- fuel, the length of what is parsed, which is enough since each round takes a byte at least. The
-- loop of the peek recurses on the list of socket reads, and the loop that draws tokens on the list
-- of draws. Reading past the end of the bytes that a socket gives is an I/O error. The recursion of
-- an SPF evaluation is on `levels`, which is `MAX_CHAIN_DEPTH + 1 - depth`: at 0 the source stops
-- with a permanent error too. A resolver has a state, which each question can change, so that a
-- bound on questions holds for a resolver that answers differently each time.
--
-- Not modelled: other crates and front ends, sockets, tasks and clocks as such (the clock is an
-- argument of each call), the yamux session behind a tunnel handle, CBOR and signatures; of `gateway`
-- the DNS messages and the transports, DKIM and DMARC, MTA-STS, the sealing and mesh delivery of a
-- message, the attestation codec, multiple domains, and the personal gateway's configuration.
-- Signature checks, the digest of a key or a message, what a tunnel does when a stream is opened or
-- written, random bytes, a settlement rail, the signing of receipts, a DNS resolver, the key directory
-- and what becomes of an accepted message are parameters.
pub mod Base
pub mod Billing
pub mod Reach
pub mod Gateway
pub mod Tests
