-- ===== src/Output/Handshake/Refusals.antt =====
-- Which peers `handshake` of internal/servent/pcp.go turns away, and with what code.
use mathlib.Core.List.{append_assoc}
use peercast_mi.Base.{
  ℕ, ◌+◌, ◌<◌, ◌≡◌, ◌≢◌, refl, ap, ◌∙◌, ◌⊎◌, inl, inr, Bool, true, false, nat_eq, List, [], ◌∷◌,
  ◌++◌, Option, none, some, arith, beq-cases, if◌then◌else◌,
}
use peercast_mi.Version.{min_version}
use peercast_mi.Pcp.{GnuId, PcpLibrary, HeloPacket}
use peercast_mi.Network.{IpLibrary}
use peercast_mi.Output.{Connection, on_error-ok, write_atom-works}
use peercast_mi.Output.Handshake.{
  Wire, response, atom, HandshakeError, ready, rejected, Request, Peer, SiteLibrary, verdict,
  send_ok, send_oleh, take_helo, read_helo_atom, handshake, position_of, loopback, not_identified,
  no_version, bad_version,
}
use peercast_mi.Output.Handshake.Peers.{IsAcceptable, responded}

module _ (lib : PcpLibrary) where
  -- A peer is turned away as this node itself, else for having no identifier, else for its version.
  pub IsRefused : GnuId → HeloPacket → ℕ → Type 0
  IsRefused session_id peer code =
      ((peer.session_id ≡ session_id) × (code ≡ lib.error_loopback))
      ⊎ ((peer.session_id ≢ session_id) × (peer.session_id ≡ 0) × (code ≡ lib.error_not_identified))
      ⊎ ((peer.session_id ≢ session_id)
          × (peer.session_id ≢ 0)
          × peer.version < min_version
          × (code ≡ lib.error_bad_agent))

module _ (lib : PcpLibrary) (net : IpLibrary) (site : SiteLibrary) (ipv4_to_uint32 : List ℕ → ℕ)
    (to16 : List ℕ → List ℕ) (works : ℕ → Bool) where
  open lib use {Atom, new_int_atom, parse_helo, quit, error_quit}

  verdict-IsRefused :
      (session_id : GnuId) (peer : HeloPacket) (code : ℕ)
      → IsRefused lib session_id peer code
      → (e : HandshakeError) × (verdict lib net site ipv4_to_uint32 to16 works session_id peer
          ≡ some (code, e))
  unfolding verdict IsRefused
  verdict-IsRefused session_id peer code (inl (p, c)) =
      (loopback, ground (arith, p, c, beq-cases peer.session_id session_id))
  verdict-IsRefused session_id peer code (inr (inl (p, q, c))) = (
    not_identified,
    ground (arith, p, q, c, beq-cases peer.session_id session_id, beq-cases peer.session_id 0),
  )
  verdict-IsRefused session_id peer code (inr (inr (p, q, v, c))) =
      elim (beq-cases peer.version 0) [
        | inl (e, _) ↦ (no_version, ground (arith, p, q, c, e))
        | inr (e, _) ↦ (bad_version, ground (arith, p, q, c, e, v))
      ]

  verdict-IsAcceptable :
      (session_id : GnuId) (peer : HeloPacket)
      → IsAcceptable session_id peer
      → verdict lib net site ipv4_to_uint32 to16 works session_id peer ≡ none
  unfolding verdict
  verdict-IsAcceptable session_id peer (p, q, v) = ground (arith, p, q, v)

  send_ok-works :
      (c : Connection (Wire Atom)) (admitted : Bool) (start : ℕ) (p : Peer)
      → ((n : ℕ) → works n ≡ true)
      → (send_ok lib net site ipv4_to_uint32 to16 works c admitted start p).2 ≡ ready start
  unfolding send_ok
  send_ok-works c false start p fine = refl
  send_ok-works c true start p fine = rw (write_atom-works works c _ fine, on_error-ok) refl

  send_oleh-works :
      (c : Connection (Wire Atom)) (session_id : GnuId) (admitted : Bool) (remote : List ℕ)
      (start : ℕ) (p : Peer)
      → ((n : ℕ) → works n ≡ true)
      → (send_oleh lib net site ipv4_to_uint32 to16 works c session_id admitted remote start p).2
        ≡ ready start
  unfolding send_oleh
  send_oleh-works c session_id admitted remote start p fine =
      rw (write_atom-works works c _ fine, on_error-ok) (send_ok-works _ admitted start p fine)

  -- A helo that can be read is judged.
  handshake-take_helo :
      (c : Connection (Wire Atom)) (p : Peer) (session_id : GnuId) (admitted : Bool)
      (req : Request Atom) (header : Option ℕ) (a : Atom) (peer : HeloPacket)
      → ((n : ℕ) → works n ≡ true)
      → req.http ≡ some header
      → req.helo_atom ≡ some a
      → lib.tag_eq.beq (lib.tag a) lib.helo ≡ true
      → parse_helo a ≡ some peer
      → handshake lib net site ipv4_to_uint32 to16 works c p session_id admitted req
        ≡ take_helo lib net site ipv4_to_uint32 to16 works
            (responded lib net site ipv4_to_uint32 to16 works c admitted)
            p
            session_id
            admitted
            req
            (position_of header)
            peer
  unfolding handshake read_helo_atom take_helo
  handshake-take_helo c p session_id admitted req header a peer fine e1 e2 e3 e4 =
      rw (e1, e2, write_atom-works works c _ fine, on_error-ok, e3, e4) refl

  -- On a connection that takes all that is written, a peer whose request and helo can be read is let
  -- in if it is acceptable, with the position that it asked for. A peer that is refused gets, after
  -- the HTTP response, exactly a quit with the code of the first reason that applies, and the
  -- handshake fails.
  pub handshake-answers :
      (c : Connection (Wire Atom)) (p : Peer) (session_id : GnuId) (admitted : Bool)
      (req : Request Atom) (header : Option ℕ) (a : Atom) (peer : HeloPacket)
      → ((n : ℕ) → works n ≡ true)
      → req.http ≡ some header
      → req.helo_atom ≡ some a
      → lib.tag_eq.beq (lib.tag a) lib.helo ≡ true
      → parse_helo a ≡ some peer
      → (let (c', p', o) =
            handshake lib net site ipv4_to_uint32 to16 works c p session_id admitted req in
          (IsAcceptable session_id peer → o ≡ ready (position_of header))
          × ((code : ℕ)
              → IsRefused lib session_id peer code
              → ((e : HandshakeError) × (o ≡ rejected e))
                × (c'.sent
                    ≡ c.sent
                      ++ response (if admitted then 200 else 503)
                        ∷ atom (new_int_atom quit (error_quit + code))
                        ∷ [])))
  unfolding take_helo
  handshake-answers c p session_id admitted req header a peer fine e1 e2 e3 e4 =
      rw (handshake-take_helo c p session_id admitted req header a peer fine e1 e2 e3 e4) (
        λ good.
            rw (take_helo, verdict-IsAcceptable session_id peer good)
              (send_oleh-works _ session_id admitted req.remote (position_of header) _ fine),
        λ code bad.
            let (e, v) = verdict-IsRefused session_id peer code bad in
            let after = responded lib net site ipv4_to_uint32 to16 works c admitted in
            let quit_sent =
              write_atom-works works after (atom (new_int_atom quit (error_quit + code))) fine in
            rw (take_helo, v)
              (
                (e, refl),
                ap (λ (r : Connection (Wire Atom) × Bool). r.0.sent) quit_sent
                    ∙ append_assoc c.sent _ _,
              ),
      )
