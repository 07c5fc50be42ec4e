-- ===== src/HelloBye/Objects.antt =====
-- The classes of HelloBye. The client's functions all use one object, whichever class they take it
-- for: it is kept here as it lies in the memory, with the members of `HelloByeClientHello`, and
-- the members of the other two classes are read from it.
use moon_state.Prelude.{ℕ, ◌-◌, ◌%◌, ◌^◌, ltb, if◌then◌else◌}
use moon_state.Prelude.Int.{ℤ, pos, negsuc}
use moon_state.Fault.{Result, ok, err, dangling}

-- `HelloByeServerHello` and `HelloByeServerBye` have the same members.
pub record Pair : Type 0 where
  pub client_cookie : ℤ
  pub server_cookie : ℤ

-- `HelloByeClientHello`
pub record Greeter : Type 0 where
  pub client_cookie : ℤ
  pub dst_ip : ℕ
  pub src_port : ℕ

pub data Object : Type 0 where
  server_hello : Pair → Object
  server_bye : Pair → Object
  client_object : Greeter → Object

-- The `int` with the given 32 bits, and the bits of an `int`.
unfoldable pub of_word : ℕ → ℤ
of_word w = if ltb w (2 ^ 31) then pos w else negsuc (2 ^ 32 - 1 - w)

unfoldable pub to_word : ℤ → ℕ
to_word (pos n) = n % 2 ^ 32
to_word (negsuc n) = 2 ^ 32 - 1 - n % 2 ^ 32

-- `serverCookie` of `HelloByeClientBye`: the second four bytes of the object.
unfoldable pub server_cookie : Greeter → ℤ
unfolding of_word
server_cookie o = of_word o.dst_ip

unfoldable pub set_server_cookie : ℤ → Greeter → Greeter
unfolding to_word
set_server_cookie c o = record o { dst_ip = to_word c }

-- `reinterpret_cast` of the pointer and the first use.
unfoldable pub as_server_hello : Object → Result Pair
as_server_hello (server_hello o) = ok o
as_server_hello (server_bye o) = err dangling
as_server_hello (client_object o) = err dangling

unfoldable pub as_server_bye : Object → Result Pair
as_server_bye (server_bye o) = ok o
as_server_bye (server_hello o) = err dangling
as_server_bye (client_object o) = err dangling

unfoldable pub as_client : Object → Result Greeter
as_client (client_object o) = ok o
as_client (server_hello o) = err dangling
as_client (server_bye o) = err dangling
