-- ===== src/HelloBye2/Objects.antt =====
-- The classes of HelloBye2, and the conversions between them.
use moon_state.Prelude.{ℕ}
use moon_state.Fault.{Result, ok, err, dangling}

-- `Server::Hello` and `Server::Bye` have the same fields, and so have `Client::Bye` and
-- `Client::RecvBye`.
pub record Pair : Type 0 where
  pub client_cookie : ℕ
  pub server_cookie : ℕ

-- `Client::Hello`
pub record Greeter : Type 0 where
  pub client_cookie : ℕ
  pub dst_ip : ℕ
  pub src_port : ℕ
  pub ident : ℕ

-- An object of one of the five classes.
pub data Object : Type 0 where
  server_hello : Pair → Object
  server_bye : Pair → Object
  client_hello : Greeter → Object
  client_bye : Pair → Object
  client_recv_bye : Pair → Object

-- `reinterpret_cast` of the pointer and the first use: an object of another class is a fault.
unfoldable pub as_server_hello : Object → Result Pair
as_server_hello (server_hello o) = ok o
as_server_hello (server_bye o) = err dangling
as_server_hello (client_hello o) = err dangling
as_server_hello (client_bye o) = err dangling
as_server_hello (client_recv_bye o) = err dangling

unfoldable pub as_server_bye : Object → Result Pair
as_server_bye (server_bye o) = ok o
as_server_bye (server_hello o) = err dangling
as_server_bye (client_hello o) = err dangling
as_server_bye (client_bye o) = err dangling
as_server_bye (client_recv_bye o) = err dangling

unfoldable pub as_client_hello : Object → Result Greeter
as_client_hello (client_hello o) = ok o
as_client_hello (server_hello o) = err dangling
as_client_hello (server_bye o) = err dangling
as_client_hello (client_bye o) = err dangling
as_client_hello (client_recv_bye o) = err dangling

unfoldable pub as_client_bye : Object → Result Pair
as_client_bye (client_bye o) = ok o
as_client_bye (server_hello o) = err dangling
as_client_bye (server_bye o) = err dangling
as_client_bye (client_hello o) = err dangling
as_client_bye (client_recv_bye o) = err dangling

unfoldable pub as_client_recv_bye : Object → Result Pair
as_client_recv_bye (client_recv_bye o) = ok o
as_client_recv_bye (server_hello o) = err dangling
as_client_recv_bye (server_bye o) = err dangling
as_client_recv_bye (client_hello o) = err dangling
as_client_recv_bye (client_bye o) = err dangling
