-- ===== src/Lib.antt =====
-- A model of acme-lib, a client library for ACME certificate authorities, and theorems about it.
--
-- The program. A `Directory` (src/dir.rs) is fetched from a URL and gives accounts
-- (src/acc/mod.rs). An account creates orders (src/order/mod.rs), whose authorizations
-- (src/order/auth.rs) are proved by challenges; a validated order is finalized by a request for a
-- certificate (src/cert.rs), polled until it is issued, and the certificate is downloaded and
-- saved. Every step is a signed request (src/jwt.rs, src/acc/akey.rs) that the transport
-- (src/trans.rs) sends with a nonce from a pool which all of a directory's accounts and orders
-- share. Keys and certificates go through a persistence (src/persist.rs). src/req.rs and
-- src/util.rs make requests and read responses, src/api.rs has the objects of the protocol,
-- src/error.rs the errors.
--
-- The files. Api, with Api/Problem, Api/Account, Api/Auth, Api/Order and Api/Serialize: src/api.rs;
-- Api/Reading reads an order by the names of RFC 8555. Outcome: src/error.rs. Req: src/req.rs and
-- src/util.rs. Jwt: src/jwt.rs. Acc/Key: src/acc/akey.rs. Acc and Acc/Inner: src/acc/mod.rs. Trans,
-- Trans/Pool and Trans/Pool/Threads: src/trans.rs. Cert, Cert/Curve and Cert/Keys: src/cert.rs.
-- Order: src/order/mod.rs. Order/Auth: src/order/auth.rs. Dir: src/dir.rs. Persist, Persist/Key,
-- Persist/Memory and Persist/File: src/persist.rs. Example: the example in the documentation of
-- src/lib.rs. The other files hold lemmas and theorems on these; the comment at the top of each
-- says on which. Functions keep their names, or the name says what the method's type said
-- (`new_pool` for `NoncePool::new`, `key_to_pem` for `AcmeKey::to_pem`, `is_auth_valid` for
-- `ApiAuth::is_status_valid`); a part of a function that has a name of its own says in a comment
-- whose part it is.
--
-- The state. Methods are actions on a `World` (World): the network with its servers, the source of
-- random numbers, the nonce pools, the store behind the persistence, and a trace of requests and
-- waits. A pool is reached by its number, as an `Arc<NoncePool>` is shared by address. An action
-- gives an outcome, which is a value, an error, a panic or the end of the fuel, and the world after
-- it; effects before an error stay. Client has the public methods that act on the world and
-- programs that call them in sequence, with any arguments and going on after errors. An invariant
-- of the primitive steps is stated as `Basics`, and Client/Frame and Client/Keeps carry it to
-- methods and programs; what holds of every step but writing is `Quiet`, and Client/Writes adds the
-- methods that write.
--
-- Other crates. ureq with the network, openssl, serde_json with the derived deserializers, base64,
-- time and `DefaultHasher` are the parameter `Crates`, and `std::fs` is the parameter `FileSystem`
-- of Persist/File; what a theorem relies on of them is a hypothesis of its own. Std models what the
-- sources use of Rust's strings and paths, those of Unix. Tests makes all parameters concrete.
--
-- Loops. The loops of `do_call`, `wait_for_order_status` and `wait_for_auth_status` have no bound
-- in the code; they run on fuel, each with all of it, as does the loop of the example. Running out
-- of it is an outcome of its own. Enough is any fuel above a rank of the network (Client/Patience),
-- a bound on how often the servers still answer that the client should come again. Example/Server
-- says what servers must do for the example to end well.
--
-- Threads. Trans/Pool/Threads has any number of threads on one pool, as a step relation: a step is
-- what a thread does under the lock of the pool, or one exchange with a server. Elsewhere calls are
-- one after another.
--
-- Not modelled. Logging. Accessors that give a field. The crate's tests with their server, and the
-- variants of `api_order_of` and `valid_days_left` that are compiled for them. A `Mutex` never
-- poisons here, because nothing panics while it is held. What a crash between two writes leaves in
-- a file.
pub mod Prelude
pub mod Std
pub mod Json
pub mod Api
pub mod Crates
pub mod Outcome
pub mod Persist
pub mod World
pub mod Req
pub mod Acc
pub mod Jwt
pub mod Trans
pub mod Cert
pub mod Order
pub mod Dir
pub mod Client
pub mod Example
mod Tests
