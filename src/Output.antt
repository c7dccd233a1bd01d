-- ===== src/Output.antt =====
-- internal/servent/output_base.go, and the notification and broadcast channels of pcp.go: the state
-- that output streams share. A Go channel of notices is the number of those in it, of broadcast
-- atoms the list of them.
pub mod Chunks
pub mod Handshake
pub mod Player
pub mod Stream
mod Tests
use peercast_mi.Base.{
  ℕ, ◌+◌, ◌≡◌, ◌⊎◌, inl, inr, refl, Bool-cases, Bool, true, false, ltb, if◌then◌else◌, List, [],
  ◌∷◌, ◌++◌, length,
}

-- A connection to write to: what went out on it, oldest first, and how many writes were tried.
pub record Connection (A : Type 0) : Type 0 where
  pub sent : List A
  pub tries : ℕ

-- `works n` says whether the `n`-th write that is tried on the connection succeeds.
unfoldable pub write_atom : {A : Type 0} → (ℕ → Bool) → Connection A → A → Connection A × Bool
write_atom works c a =
    if works c.tries
    then (record { sent = c.sent ++ a ∷ []; tries = c.tries + 1 }, true)
    else (record c { tries = c.tries + 1 }, false)

-- A write goes out, or it fails.
pub write_atom-cases :
    {A : Type 0} (works : ℕ → Bool) (c : Connection A) (a : A)
    → (write_atom works c a ≡ (record { sent = c.sent ++ a ∷ []; tries = c.tries + 1 }, true))
      ⊎ ((write_atom works c a ≡ (record c { tries = c.tries + 1 }, false))
          × (works c.tries ≡ false))
unfolding write_atom
write_atom-cases works c a = elim (Bool-cases (works c.tries)) [
  | inl fine ↦ inl (rw fine refl)
  | inr broken ↦ inr (rw broken refl, broken)
]

pub write_atom-works :
    {A : Type 0} (works : ℕ → Bool) (c : Connection A) (a : A)
    → ((n : ℕ) → works n ≡ true)
    → write_atom works c a ≡ (record { sent = c.sent ++ a ∷ []; tries = c.tries + 1 }, true)
unfolding write_atom
write_atom-works works c a h = rw (h c.tries) refl

-- `if err := ...; err != nil`: what follows a write that failed, and one that did not.
module _ {A R : Type 0} where
  unfoldable pub on_error : Connection A × Bool → (Connection A → R) → (Connection A → R) → R
  on_error (c, ok) failed next = if ok then next c else failed c

  pub on_error-ok :
      (c : Connection A) (failed next : Connection A → R) → on_error (c, true) failed next ≡ next c
  unfolding on_error
  on_error-ok c failed next = refl

  pub on_error-failed :
      (c : Connection A) (failed next : Connection A → R)
      → on_error (c, false) failed next ≡ failed c
  unfolding on_error
  on_error-failed c failed next = refl

-- `onClose` is a hook that need not be set; `hook_calls` counts the calls of it.
pub record OutputBase (A : Type 0) : Type 0 where
  pub closed : Bool
  pub close_signals : ℕ
  pub on_close : Bool
  pub hook_calls : ℕ
  pub header_queue : ℕ
  pub info_queue : ℕ
  pub track_queue : ℕ
  pub bcst_queue : List A

-- A channel of capacity 1 takes a notice only when it is empty.
unfoldable pub notify : ℕ → ℕ
notify queued = if ltb queued 1 then queued + 1 else queued

module _ {A : Type 0} where
  unfoldable pub new_output_base : Bool → OutputBase A
  new_output_base hook = record {
    closed = false;
    close_signals = 0;
    on_close = hook;
    hook_calls = 0;
    header_queue = 0;
    info_queue = 0;
    track_queue = 0;
    bcst_queue = [];
  }

  unfoldable pub notify_header : OutputBase A → OutputBase A
  unfolding notify
  notify_header b = record b { header_queue = notify b.header_queue }

  unfoldable pub notify_info : OutputBase A → OutputBase A
  unfolding notify
  notify_info b = record b { info_queue = notify b.info_queue }

  unfoldable pub notify_track : OutputBase A → OutputBase A
  unfolding notify
  notify_track b = record b { track_queue = notify b.track_queue }

  -- `SendBcst`: the channel holds 8 atoms, and one that does not fit is dropped.
  unfoldable pub send_bcst : OutputBase A → A → OutputBase A
  send_bcst b atom =
      if ltb (length b.bcst_queue) 8 then record b { bcst_queue = b.bcst_queue ++ atom ∷ [] } else b

  unfoldable pub close : OutputBase A → OutputBase A
  close b = if b.closed then b else record b {
    closed = true;
    close_signals = b.close_signals + 1;
    hook_calls = b.hook_calls + (if b.on_close then 1 else 0);
  }
