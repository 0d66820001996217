-- ===== src/SslClient/Secure.antt =====
-- Of ssl_client.c.
-- The calls in front of the copies.
use hassio_installer.Prelude.{◌≡◌, ◌⊎◌, Bytes, true, some, ◌∷◌, [], List, false}
use hassio_installer.Prelude.Int.{ℤ}
use hassio_installer.SslClient.Session.{
  Call, ctx_new, verify_paths, ssl_new, auto_retry, no_partial_wildcards, verify_peer, connect,
  set_fd, server_name, host, Tls,
}

-- A connection that checks the peer's certificate against this name.
abbrev pub secured : ℤ → Bytes → List Call
secured fd name =
    ctx_new
    ∷ verify_paths
    ∷ ssl_new
    ∷ set_fd fd
    ∷ auto_retry
    ∷ no_partial_wildcards
    ∷ server_name (some name)
    ∷ host (some name)
    ∷ verify_peer
    ∷ connect
    ∷ []

-- Every call that may fail succeeds: that the host's name is set and the handshake among them.
abbrev pub Succeeds : Tls → Bytes → Type 0
Succeeds tls name =
    (tls.ctx_made ≡ true)
    × (tls.ssl_made ≡ true)
    × (tls.name_set (some name) ≡ true)
    × (tls.host_set (some name) ≡ true)
    × (tls.connected ≡ true)

abbrev pub Fails : Tls → Bytes → Type 0
Fails tls name =
    (tls.ctx_made ≡ false)
    ⊎ (tls.ssl_made ≡ false)
    ⊎ (tls.name_set (some name) ≡ false)
    ⊎ (tls.host_set (some name) ≡ false)
    ⊎ (tls.connected ≡ false)
