-- ===== src/Output/Handshake/Peers.antt =====
-- Which peers `handshake` of internal/servent/pcp.go lets in, and what they are sent.
use mathlib.Core.List.{append_assoc, append-nil}
use peercast_mi.Base.{
  subst, ℕ, ◌+◌, ◌≤◌, ◌≡◌, ◌≢◌, refl, sym, ap, ◌∙◌, ◌⊎◌, inl, inr, Bool, true, false, nat_eq, List,
  [], ◌∷◌, ◌++◌, Option, none, some, arith, Bool-cases, Option-cases, if◌then◌else◌, beq-cases, ltb,
}
use peercast_mi.Output.Handshake.Ports.{IsPortOf, remote_port_of-IsPortOf}
use peercast_mi.Version.{min_version}
use peercast_mi.Pcp.{GnuId, PcpLibrary, HeloPacket}
use peercast_mi.Network.{IpLibrary}
use peercast_mi.Output.{Connection, write_atom-cases, on_error-ok, on_error-failed}
use peercast_mi.Output.Handshake.{
  Wire, response, atom, HandshakeError, ready, Request, Peer, SiteLibrary, loopback, not_identified,
  no_version, bad_version, verdict, oleh_for, send_ok, send_oleh, take_helo, read_helo_atom,
  handshake, position_of,
}

-- A peer with an identifier that is not this node's own, and with a version that it knows.
abbrev pub IsAcceptable : GnuId → HeloPacket → Type 0
IsAcceptable session_id peer =
    (peer.session_id ≢ session_id) × (peer.session_id ≢ 0) × min_version ≤ peer.version

module _ (lib : PcpLibrary) (net : IpLibrary) (site : SiteLibrary) (ipv4_to_uint32 : List ℕ → ℕ)
    (to16 : List ℕ → List ℕ) (works : ℕ → Bool) where
  open lib use {Atom, new_int_atom, ok, parse_helo}

  verdict-cases :
      (session_id : GnuId) (peer : HeloPacket)
      → let v = verdict lib net site ipv4_to_uint32 to16 works session_id peer in
        ((v ≡ none) × IsAcceptable session_id peer)
        ⊎ ((code : ℕ) × (e : HandshakeError) × (v ≡ some (code, e)))
  unfolding verdict
  verdict-cases session_id peer = elim (beq-cases peer.session_id session_id) [
    | inl (e, p) ↦ inr (lib.error_loopback, loopback, rw e refl)
    | inr (e, p) ↦ elim (beq-cases peer.session_id 0) [
      | inl (f, q) ↦ inr (lib.error_not_identified, not_identified, rw (e, f) refl)
      | inr (f, q) ↦ elim (beq-cases peer.version 0) [
        | inl (g, r) ↦ inr (lib.error_bad_agent, no_version, rw (e, f, g) refl)
        | inr (g, r) ↦ elim (Bool-cases (ltb peer.version min_version)) [
          | inl h ↦ inr (lib.error_bad_agent, bad_version, rw (e, f, g, h) refl)
          | inr h ↦ inl (rw (e, f, g, h) refl, (p, q, ground (arith, h)))
        ]
      ]
    ]
  ]

  -- What goes out after the HTTP response to a peer that is let in.
  abbrev pub welcome : GnuId → Bool → Request Atom → Peer → List (Wire Atom)
  welcome session_id admitted req p =
      atom (oleh_for lib net site ipv4_to_uint32 to16 works session_id req.remote p.remote_port)
      ∷ (if admitted then atom (new_int_atom ok 1) ∷ [] else [])

  send_ok-ready :
      (c : Connection (Wire Atom)) (admitted : Bool) (start n : ℕ) (p : Peer)
      → (let (c', p', o) = send_ok lib net site ipv4_to_uint32 to16 works c admitted start p in
          o ≡ ready n
          → (n ≡ start)
            × (p' ≡ p)
            × (c'.sent ≡ c.sent ++ (if admitted then atom (new_int_atom ok 1) ∷ [] else [])))
  unfolding send_ok
  send_ok-ready c false start n p = λ h. (cc h, refl, sym (append-nil c.sent))
  send_ok-ready c true start n p = elim (write_atom-cases works c (atom (new_int_atom ok 1))) [
    | inr (e, broken) ↦ rw (e, on_error-failed) (λ h. cc h)
    | inl e ↦ rw (e, on_error-ok) (λ h. (cc h, refl, refl))
  ]

  send_oleh-ready :
      (c : Connection (Wire Atom)) (session_id : GnuId) (admitted : Bool) (req : Request Atom)
      (start n : ℕ) (p : Peer)
      → (let (c', p', o) =
            send_oleh lib net site ipv4_to_uint32 to16 works c session_id admitted req.remote start
              p in
          o ≡ ready n
          → (n ≡ start) × (p' ≡ p) × (c'.sent ≡ c.sent ++ welcome session_id admitted req p))
  unfolding send_oleh
  send_oleh-ready c session_id admitted req start n p =
      let oleh =
        oleh_for lib net site ipv4_to_uint32 to16 works session_id req.remote p.remote_port in
      elim (write_atom-cases works c (atom oleh)) [
        | inr (e, broken) ↦ rw (e, on_error-failed) (λ h. cc h)
        | inl e ↦
            rw (e, on_error-ok)
              (λ h.
                let next : Connection (Wire Atom) = record {
                  sent = c.sent ++ atom oleh ∷ [];
                  tries = c.tries + 1;
                } in
                let (s, q, t) = send_ok-ready next admitted start n p h in
                (s, q, t ∙ append_assoc c.sent (atom oleh ∷ []) _))
      ]

  -- What a handshake that ends well has seen and done.
  pub record IsReady (c : Connection (Wire Atom)) (session_id : GnuId) (admitted : Bool)
      (req : Request Atom) (start n : ℕ) (c' : Connection (Wire Atom)) (p' : Peer) : Type 0 where
    pub peer : HeloPacket
    pub helo_atom : Atom
    pub is_read : req.helo_atom ≡ some helo_atom
    pub is_tagged : lib.tag helo_atom ≡ lib.helo
    pub is_helo : parse_helo helo_atom ≡ some peer
    pub acceptable : IsAcceptable session_id peer
    pub position : n ≡ start
    pub peer_id : p'.peer_id ≡ peer.session_id
    pub port : IsPortOf net site peer req.remote req.ping_host p'.remote_port
    pub sent : c'.sent ≡ c.sent ++ welcome session_id admitted req p'

  read_helo_atom-ready :
      (c : Connection (Wire Atom)) (p : Peer) (session_id : GnuId) (admitted : Bool)
      (req : Request Atom) (start n : ℕ)
      → (let (c', p', o) =
            read_helo_atom lib net site ipv4_to_uint32 to16 works c p session_id admitted req
              start in
          o ≡ ready n → IsReady c session_id admitted req start n c' p')
  unfolding read_helo_atom take_helo
  read_helo_atom-ready c p session_id admitted req start n = elim (Option-cases req.helo_atom) [
    | inl e ↦ rw e (λ h. cc h)
    | inr (a, e) ↦ elim (Bool-cases (lib.tag_eq.beq (lib.tag a) lib.helo)) [
      | inr f ↦ rw (e, f) (λ h. cc h)
      | inl f ↦ elim (Option-cases (parse_helo a)) [
        | inl g ↦ rw (e, f, g) (λ h. cc h)
        | inr (peer, g) ↦ elim (verdict-cases session_id peer) [
          | inr (code, err, k) ↦ rw (e, f, g, take_helo, k) (λ h. cc h)
          | inl (k, good) ↦
              rw (e, f, g, take_helo, k)
                (λ h.
                  let (s, q, t) = send_oleh-ready c session_id admitted req start n _ h in
                  record {
                    peer = peer;
                    helo_atom = a;
                    is_read = refl;
                    is_tagged = (lib.tag_eq.beq_iff (lib.tag a) lib.helo).0 f;
                    is_helo = g;
                    acceptable = good;
                    position = s;
                    peer_id = ap (λ (x : Peer). x.peer_id) q;
                    port =
                        subst (IsPortOf net site peer req.remote req.ping_host)
                          (sym (ap (λ (x : Peer). x.remote_port) q))
                          (remote_port_of-IsPortOf net site peer req.remote req.ping_host);
                    sent = rw q t;
                  })
        ]
      ]
    ]
  ]

  -- The connection after the HTTP response.
  abbrev pub responded : Connection (Wire Atom) → Bool → Connection (Wire Atom)
  responded c admitted = record {
    sent = c.sent ++ response (if admitted then 200 else 503) ∷ [];
    tries = c.tries + 1;
  }

  -- A handshake that ends well has read a request and a helo, under its tag, of a peer that is not
  -- this node, has an identifier and a version that is not too old. It keeps that identifier and as
  -- port the one that the helo asks to be checked, if the remote address is not of the own site and the
  -- check succeeds, 0 if it asks and either fails, and the port that it claims, unchecked, if it asks
  -- for no check. It has sent the response 200, or 503 to a peer that is not admitted, then an oleh
  -- that tells the peer its port, and PCP_OK only to a peer that is admitted; and it returns the
  -- position that the request asked for.
  pub handshake-IsReady :
      (c : Connection (Wire Atom)) (p : Peer) (session_id : GnuId) (admitted : Bool)
      (req : Request Atom) (n : ℕ)
      → (let (c', p', o) =
            handshake lib net site ipv4_to_uint32 to16 works c p session_id admitted req in
          o ≡ ready n
          → (header : Option ℕ) × (req.http ≡ some header)
            × IsReady (responded c admitted) session_id admitted req (position_of header) n c' p')
  unfolding handshake
  handshake-IsReady c p session_id admitted req n = elim (Option-cases req.http) [
    | inl e ↦ rw e (λ h. cc h)
    | inr (header, e) ↦ elim (write_atom-cases works c (response (if admitted then 200 else 503))) [
      | inr (f, broken) ↦ rw (e, f, on_error-failed) (λ h. cc h)
      | inl f ↦
          rw (e, f, on_error-ok)
            (λ h. (
              header,
              refl,
              read_helo_atom-ready (responded c admitted) p session_id admitted
                  (record req { http = some header }) (position_of header) n h,
            ))
    ]
  ]
