-- ===== src/Dtls/Context.antt =====
-- `createCTX` of server and client: the context that their connections are made from.
use moon_state.Prelude.{ℕ, Bool, true, false, not, Option, none, some, List, [], ◌∷◌, if◌then◌else◌}
use moon_state.Prelude.Int.{ℤ, pos, int_eq}
use moon_state.Fault.{Result, ok, err, ◌>>=◌, ◌>>◌, uncaught}
use moon_state.BufArray.{Ptr}
use moon_state.HelloBye.Text.{codes}

-- What it uses of OpenSSL. A null pointer is `none`.
pub record Contexts (L : Type 0) : Type 0 where
  pub ctx_new : L → Option (Ptr × L)
  pub dh_new : L → Option (Ptr × L)
  pub bn_bin2bn : List ℕ → L → Option Ptr × L
  pub dh_set0_pqg : Ptr → Option Ptr → Option Ptr → L → Bool × L
  pub dh_free : Option Ptr → L → L
  pub bn_free : Option Ptr → L → L
  pub ctx_set_tmp_dh : Ptr → Option Ptr → L → ℤ × L
  pub ctx_set_cipher_list : Ptr → List ℕ → L → ℤ × L
  pub ctx_use_certificate_file : Ptr → List ℕ → L → ℤ × L
  pub ctx_use_private_key_file : Ptr → List ℕ → L → ℤ × L
  pub ctx_check_private_key : Ptr → L → ℤ × L
  pub ctx_accept_every_cert : Ptr → L → L
  pub ctx_no_query_mtu : Ptr → L → L

unfoldable pub dhp_2048 : List ℕ
dhp_2048 =
    0x88 ∷ 0xD8 ∷ 0xA0 ∷ 0x31 ∷ 0x4B ∷ 0x45 ∷ 0x4A ∷ 0xA3 ∷ 0x0D ∷ 0x07 ∷ 0xD3 ∷ 0x6E ∷ 0x68 ∷ 0xDA
    ∷ 0x74 ∷ 0xE7 ∷ 0xEF ∷ 0x69 ∷ 0x2B ∷ 0x9C ∷ 0x61 ∷ 0xC1 ∷ 0xDE ∷ 0x36 ∷ 0x58 ∷ 0x68 ∷ 0x85
    ∷ 0x80 ∷ 0x04 ∷ 0x2A ∷ 0xD1 ∷ 0x93 ∷ 0x52 ∷ 0xEA ∷ 0xB6 ∷ 0x21 ∷ 0x9B ∷ 0x03 ∷ 0x59 ∷ 0x8E
    ∷ 0x3A ∷ 0x72 ∷ 0x41 ∷ 0x5B ∷ 0x85 ∷ 0xDC ∷ 0x46 ∷ 0xE6 ∷ 0x32 ∷ 0x2E ∷ 0xF9 ∷ 0x50 ∷ 0x20
    ∷ 0xE3 ∷ 0x63 ∷ 0xFB ∷ 0x0B ∷ 0x14 ∷ 0xE9 ∷ 0x72 ∷ 0x8E ∷ 0x6D ∷ 0xBD ∷ 0x69 ∷ 0xF5 ∷ 0x65
    ∷ 0x9F ∷ 0x22 ∷ 0x65 ∷ 0x65 ∷ 0x16 ∷ 0x12 ∷ 0x13 ∷ 0x74 ∷ 0x46 ∷ 0x99 ∷ 0x37 ∷ 0x5E ∷ 0x3B
    ∷ 0x68 ∷ 0x20 ∷ 0x8C ∷ 0x61 ∷ 0x1B ∷ 0xCE ∷ 0xEB ∷ 0xCD ∷ 0xFA ∷ 0x61 ∷ 0xEE ∷ 0x7D ∷ 0x52
    ∷ 0x00 ∷ 0x5F ∷ 0x1C ∷ 0xDC ∷ 0xCE ∷ 0x74 ∷ 0xBB ∷ 0x09 ∷ 0x2A ∷ 0xA9 ∷ 0xEC ∷ 0xD2 ∷ 0x0C
    ∷ 0xE9 ∷ 0x7A ∷ 0x15 ∷ 0x31 ∷ 0x1E ∷ 0xD6 ∷ 0x37 ∷ 0x28 ∷ 0x11 ∷ 0x93 ∷ 0x82 ∷ 0x64 ∷ 0xD0
    ∷ 0xF2 ∷ 0xF9 ∷ 0x93 ∷ 0x51 ∷ 0xD9 ∷ 0xB5 ∷ 0x92 ∷ 0xEF ∷ 0xB8 ∷ 0xAC ∷ 0x01 ∷ 0xB7 ∷ 0x80
    ∷ 0xE6 ∷ 0xCB ∷ 0xB6 ∷ 0x23 ∷ 0x92 ∷ 0xAF ∷ 0x58 ∷ 0x79 ∷ 0xF9 ∷ 0xBB ∷ 0x42 ∷ 0x7F ∷ 0x42
    ∷ 0x93 ∷ 0xF9 ∷ 0x04 ∷ 0x9A ∷ 0xC1 ∷ 0x24 ∷ 0x7B ∷ 0x6B ∷ 0xF4 ∷ 0x4C ∷ 0xE5 ∷ 0x19 ∷ 0xEF
    ∷ 0x64 ∷ 0x36 ∷ 0x0D ∷ 0xCE ∷ 0x6F ∷ 0x77 ∷ 0xF8 ∷ 0x65 ∷ 0x32 ∷ 0xB6 ∷ 0x2D ∷ 0xB7 ∷ 0xA2
    ∷ 0xD0 ∷ 0x93 ∷ 0x07 ∷ 0xEC ∷ 0xFB ∷ 0x62 ∷ 0xF3 ∷ 0x01 ∷ 0xEB ∷ 0x4F ∷ 0x4E ∷ 0x2B ∷ 0x6A
    ∷ 0x30 ∷ 0xF5 ∷ 0x09 ∷ 0x17 ∷ 0x3A ∷ 0x92 ∷ 0x1B ∷ 0x0B ∷ 0xA9 ∷ 0x13 ∷ 0x6E ∷ 0x76 ∷ 0xDB
    ∷ 0x39 ∷ 0x4D ∷ 0x2F ∷ 0x1A ∷ 0x15 ∷ 0x27 ∷ 0x7A ∷ 0xE8 ∷ 0xEE ∷ 0x6C ∷ 0xFA ∷ 0x91 ∷ 0xC6
    ∷ 0xF0 ∷ 0x51 ∷ 0x25 ∷ 0xA6 ∷ 0x5B ∷ 0x77 ∷ 0xC9 ∷ 0x14 ∷ 0xF1 ∷ 0x04 ∷ 0xF0 ∷ 0x99 ∷ 0x30
    ∷ 0x13 ∷ 0x60 ∷ 0xAA ∷ 0x4A ∷ 0x73 ∷ 0xF2 ∷ 0x7B ∷ 0x2D ∷ 0xAA ∷ 0x7F ∷ 0x02 ∷ 0xB5 ∷ 0xD4
    ∷ 0x86 ∷ 0xF0 ∷ 0x25 ∷ 0x7D ∷ 0x80 ∷ 0x9E ∷ 0xAF ∷ 0x3A ∷ 0x90 ∷ 0x93 ∷ 0x03 ∷ 0xDC ∷ 0xA1
    ∷ 0xB9 ∷ 0x76 ∷ 0xB3 ∷ 0x6B ∷ 0x8C ∷ 0xDC ∷ 0x83 ∷ 0xE3 ∷ []

unfoldable pub dhg_2048 : List ℕ
dhg_2048 = 0x02 ∷ []

abbrev pub is_null : Option Ptr → Bool
is_null none = true
is_null (some p) = false

-- `result == 1`
abbrev pub succeeded : ℤ → Bool
succeeded r = int_eq r (pos 1)

module _ {L : Type 0} (tls : Contexts L) where
  unfoldable pub get_dh2048 : L → Option Ptr × L
  unfolding dhp_2048 dhg_2048
  get_dh2048 l0 = elim (tls.dh_new l0) [
    | none ↦ (none, l0)
    | some (dh, l1) ↦
        let (p, l2) = tls.bn_bin2bn dhp_2048 l1 in
        let (g, l3) = tls.bn_bin2bn dhg_2048 l2 in
        let (done, l4) = tls.dh_set0_pqg dh p g l3 in
        let failed = tls.bn_free g (tls.bn_free p (tls.dh_free (some dh) l3)) in
        if is_null p
        then (none, failed)
        else if is_null g
        then (none, failed)
        else if done
        then (some dh, l4)
        else (none, tls.bn_free g (tls.bn_free p (tls.dh_free (some dh) l4)))
  ]

  -- The key and the certificate of the server.
  unfoldable pub load_files : Ptr → L → Result L
  load_files ctx l0 = do
    let (r1, l1) = tls.ctx_use_certificate_file ctx (codes "./server-cert.pem") l0
    (if succeeded r1 then ok tt else err uncaught)
    let (r2, l2) = tls.ctx_use_private_key_file ctx (codes "./server-key.pem") l1
    (if succeeded r2 then ok tt else err uncaught)
    let (r3, l3) = tls.ctx_check_private_key ctx l2
    (if succeeded r3 then ok l3 else err uncaught)

  -- `DTLS_Server::createCTX`, with the null pointer that it returns on some of the errors.
  unfoldable pub create_server_ctx : L → Result (Option Ptr × L)
  unfolding get_dh2048 load_files
  create_server_ctx l0 = elim (tls.ctx_new l0) [
    | none ↦ ok (none, l0)
    | some (ctx, l1) ↦
        let (dh, l2) = get_dh2048 l1 in
        let (r3, l3) = tls.ctx_set_tmp_dh ctx dh l2 in
        let (r4, l4) = tls.ctx_set_cipher_list ctx (codes "ALL") (tls.dh_free dh l3) in
        if not (succeeded r3)
        then ok (none, l3)
        else if not (succeeded r4)
        then ok (none, l4)
        else (do
          l5 ← load_files ctx l4
          ok (some ctx, tls.ctx_no_query_mtu ctx (tls.ctx_accept_every_cert ctx l5)))
  ]

  -- `DTLS_Client::createCTX`
  unfoldable pub create_client_ctx : L → Option Ptr × L
  create_client_ctx l0 = elim (tls.ctx_new l0) [
    | none ↦ (none, l0)
    | some (ctx, l1) ↦
        let (r, l2) = tls.ctx_set_cipher_list ctx (codes "ALL:!ADH:!LOW:!EXP:!MD5:@STRENGTH") l1 in
        if succeeded r
        then (some ctx, tls.ctx_no_query_mtu ctx (tls.ctx_accept_every_cert ctx l2))
        else (none, l2)
  ]
