-- ===== src/Mux/Options.antt =====
-- src/mux/config.rs: `Options`, and src/mux/timing.rs: `OptionalDuration`. The setters stop with a
-- panic, `none`, where an assertion fails.
use penguin_rs.Base.{
  ℕ, ◌*◌, ◌^◌, ◌≤◌, ◌<◌, ◌≡◌, refl, ◌⊎◌, inl, inr, List, [], ◌∷◌, subst, Option, none, some,
  if◌then◌else◌, ◌==◌, ltb, min, arith, sym, ◌∙◌, Option-cases,
}
use penguin_rs.Mux.Window.{Link, window, Reach, IsFresh}
use penguin_rs.Mux.Window.Balance.{credits}
use penguin_rs.Mux.Window.Progress.{no_deadlock}

-- `none` is no limit; a duration is its number of nanoseconds.
abbrev pub OptionalDuration : Type 0
OptionalDuration = Option ℕ

unfoldable pub from_secs : ℕ → OptionalDuration
from_secs duration = some (duration * 1000000000)

unfoldable pub from_duration : ℕ → OptionalDuration
from_duration duration = if duration == 0 then none else some duration

-- After the number was parsed.
unfoldable pub from_parsed_secs : ℕ → OptionalDuration
unfolding from_secs
from_parsed_secs value = if value == 0 then none else from_secs value

pub record Options : Type 0 where
  pub keepalive_interval : OptionalDuration
  pub datagram_buffer_size : ℕ
  pub stream_buffer_size : ℕ
  pub bind_buffer_size : ℕ
  pub max_flow_id_retries : ℕ
  pub rwnd : ℕ
  pub default_rwnd_threshold : ℕ

unfoldable pub new_options : Options
new_options = record {
  keepalive_interval = none;
  datagram_buffer_size = 2 ^ 9;
  stream_buffer_size = 2 ^ 4;
  bind_buffer_size = 0;
  max_flow_id_retries = 3;
  rwnd = 2 ^ 9;
  default_rwnd_threshold = 2 ^ 8;
}

-- The setters, under the names of what they set; a `usize` has at least 32 bits here.
pub data Setting : Type 0 where
  keepalive_interval : OptionalDuration → Setting
  datagram_buffer_size stream_buffer_size bind_buffer_size max_flow_id_retries : ℕ → Setting
  rwnd default_rwnd_threshold : ℕ → Setting

unfoldable pub set_option : Setting → Options → Option Options
set_option (Setting.keepalive_interval interval) self =
    some (record self { keepalive_interval = interval })
set_option (Setting.datagram_buffer_size size) self =
    if ltb 0 size then some (record self { datagram_buffer_size = size }) else none
set_option (Setting.stream_buffer_size size) self =
    if ltb 0 size then some (record self { stream_buffer_size = size }) else none
set_option (Setting.bind_buffer_size size) self = some (record self { bind_buffer_size = size })
set_option (Setting.max_flow_id_retries retries) self =
    if ltb 0 retries then some (record self { max_flow_id_retries = retries }) else none
set_option (Setting.rwnd size) self =
    if ltb 0 size then some (record self { rwnd = size }) else none
set_option (Setting.default_rwnd_threshold threshold) self =
    if ltb 0 threshold then some (record self { default_rwnd_threshold = threshold }) else none

unfoldable pub set_options : List Setting → Options → Option Options
unfolding set_option
set_options [] self = some self
set_options (setting ∷ settings) self = elim (set_option setting self) [
  | none ↦ none
  | some self' ↦ set_options settings self'
]

-- The buffers that must hold something do, there is a try at a flow ID, and the window and its
-- threshold are positive.
pub record IsUsable (o : Options) : Type 0 where
  pub datagrams : 0 < o.datagram_buffer_size
  pub streams : 0 < o.stream_buffer_size
  pub retries : 0 < o.max_flow_id_retries
  pub window_positive : 0 < o.rwnd
  pub threshold_positive : 0 < o.default_rwnd_threshold

set_option-IsUsable :
    (setting : Setting) (o after : Options)
    → IsUsable o
    → set_option setting o ≡ some after
    → IsUsable after
unfolding set_option
set_option-IsUsable setting o after u h = record {
  datagrams = ground (arith, h, u.datagrams);
  streams = ground (arith, h, u.streams);
  retries = ground (arith, h, u.retries);
  window_positive = ground (arith, h, u.window_positive);
  threshold_positive = ground (arith, h, u.threshold_positive);
}

set_options-IsUsable :
    (settings : List Setting) (o after : Options)
    → IsUsable o
    → set_options settings o ≡ some after
    → IsUsable after
unfolding set_options
set_options-IsUsable [] o after u h = subst IsUsable (some_injective h) u
  where
    some_injective : some o ≡ some after → o ≡ after
    some_injective e = ground arith
set_options-IsUsable (setting ∷ settings) o after u h = elim (Option-cases (set_option setting o)) [
  | inl stopped ↦ absurd (cc (sym (opened stopped) ∙ h))
  | inr (o', set) ↦
      set_options-IsUsable settings o' after (set_option-IsUsable setting o o' u set)
        (sym (continued o' set) ∙ h)
]
  where
    opened : set_option setting o ≡ none → set_options (setting ∷ settings) o ≡ none
    opened e = rw (e, set_options) refl

    continued :
        (o' : Options)
        → set_option setting o ≡ some o'
        → set_options (setting ∷ settings) o ≡ set_options settings o'
    continued o' e = rw (e, set_options) refl

new_options-IsUsable : IsUsable new_options
unfolding new_options
new_options-IsUsable = record {
  datagrams = omega arith;
  streams = omega arith;
  retries = omega arith;
  window_positive = omega arith;
  threshold_positive = omega arith;
}

-- Options made by setters that do not panic, with a threshold at most the window, cannot block a
-- writer for good, whatever window the peer announces: on a stream whose reader takes the smaller
-- of the threshold and the peer's window as its own threshold, a writer whose window is used up
-- always waits for a `Push` on its way, for data in the channel, or for credit on its way back.
pub set_options_no_deadlock :
    (settings : List Setting) (o : Options) (peer_rwnd : ℕ) (start l : Link)
    → set_options settings new_options ≡ some o
    → o.default_rwnd_threshold ≤ o.rwnd
    → o.rwnd < 2 ^ 32
    → start.remote.rwnd_threshold ≡ min o.default_rwnd_threshold peer_rwnd
    → IsFresh o.rwnd start
    → Reach o.rwnd start l
    → window l ≡ 0
    → (0 < l.pushes) ⊎ (0 < l.queue) ⊎ (0 < credits l.wire)
set_options_no_deadlock settings o peer_rwnd start l set low fits threshold fresh reach empty =
    let usable = set_options-IsUsable settings new_options o new_options-IsUsable set in
    no_deadlock o.rwnd start l fits usable.window_positive (omega (arith, threshold, low)) fresh
      reach empty
