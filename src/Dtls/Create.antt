-- ===== src/Dtls/Create.antt =====
-- How the DTLS protocols make the object of a connection.
use moon_state.Prelude.{Option, none, some}
use moon_state.Fault.{Result, ok, err, ◌>>=◌, assert_failed, uncaught}
use moon_state.BufArray.{Ptr}
use moon_state.Hello.Heap.{Heap}
use moon_state.Dtls.Library.{Library}
use moon_state.Dtls.Store.{Store, Ends}
use moon_state.Dtls.Server.{Server}
use moon_state.Dtls.Client.{Client}

-- `assert(p != NULL)`
abbrev pub not_null {ℓ} : {A : Type ℓ} → Option A → Result A
not_null none = err assert_failed
not_null (some a) = ok a

-- `new`, where there is memory.
abbrev pub made {ℓ} : {A : Type ℓ} → Option A → Result A
made none = err uncaught
made (some a) = ok a

module _ {L : Type 0} (lib : Library L) where
  -- The three parts of a connection with OpenSSL; a null context gives no `SSL`.
  unfoldable pub new_ssl : Option Ptr → L → Result (Ptr × Ptr × Ptr × L)
  new_ssl ctx l0 = do
    c ← not_null ctx
    (ssl, l1) ← not_null (lib.ssl_new c l0)
    (wbio, l2) ← not_null (lib.bio_new l1)
    (rbio, l3) ← not_null (lib.bio_new l2)
    ok (ssl, wbio, rbio, l3)

  -- `DTLS_Server::factory`
  unfoldable pub factory :
      {H : Type 0} → Heap Server H → Option Ptr → Store H L → Result (Ptr × Store H L)
  unfolding new_ssl
  factory heap ctx w = do
    let zeros : Server = record {
      ssl = 0;
      wbio = 0;
      rbio = 0;
      ends = record { local_ip = 0; remote_ip = 0; local_port = 0; remote_port = 0 };
      local_mac = λ a. 0;
      remote_mac = λ a. 0;
    }
    (server, h) ← made (heap.create zeros w.heap)
    (ssl, wbio, rbio, l) ← new_ssl ctx w.lib
    let l' =
        lib.ssl_set_mtu ssl 1280 (lib.ssl_set_bio ssl rbio wbio (lib.ssl_set_accept_state ssl l))
    let h' = heap.save server (record zeros { ssl = ssl; wbio = wbio; rbio = rbio }) h
    ok (server, record w { heap = h'; lib = l' })

  -- `DTLS_Client::createStateData`, with the pointer that its state gets.
  unfoldable pub create_state_data :
      {H : Type 0} → Heap Client H → Option Ptr → Ends → Store H L → Result (Ptr × Store H L)
  unfolding new_ssl
  create_state_data heap ctx ends w = do
    let zeros : Client = record { ssl = 0; wbio = 0; rbio = 0; ends = ends }
    (client, h) ← made (heap.create zeros w.heap)
    (ssl, wbio, rbio, l) ← new_ssl ctx w.lib
    let l' =
        lib.ssl_set_mtu ssl 1280 (lib.ssl_set_bio ssl rbio wbio (lib.ssl_set_connect_state ssl l))
    let h' = heap.save client (record zeros { ssl = ssl; wbio = wbio; rbio = rbio }) h
    ok (client, record w { heap = h'; lib = l' })
