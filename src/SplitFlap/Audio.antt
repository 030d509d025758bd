-- ===== src/SplitFlap/Audio.antt =====
-- Frontend/components/split-flap-text.tsx, `SplitFlapAudioProvider`: the sound of the tiles. What the
-- platform has is a parameter; a call returns the sounds and vibrations that it makes and the provider.
-- An `AudioContext` is suspended or running, and `resume()` is taken to have its effect at once. Times
-- are whole milliseconds, gains are in thousandths, and the random part of a frequency is in Hertz.
use infrgate.Prelude.{
  ℕ, ◌+◌, Bool, true, false, Option, none, some, List, [], ◌∷◌, ◌++◌, if◌then◌else◌,
}

pub data ContextState : Type 0 where
  suspended running : ContextState

-- `window`, its `AudioContext` and the state of a new one, and `navigator.vibrate`
pub record Platform : Type 0 where
  pub has_window : Bool
  pub has_audio_context : Bool
  pub created : ContextState
  pub has_vibrate : Bool

-- a square wave that falls from a frequency, through a band-pass and a low-pass filter
pub record Tone : Type 0 where
  pub from_frequency : ℕ
  pub to_frequency : ℕ
  pub ramp_ms : ℕ
  pub bandpass : ℕ
  pub lowpass : ℕ
  pub from_gain : ℕ
  pub to_gain : ℕ
  pub stop_ms : ℕ

pub data Effect : Type 0 where
  vibrate : ℕ → Effect
  tone : Tone → Effect

pub record SplitFlapAudioProvider : Type 0 where
  pub is_muted : Bool
  pub audio_context : Option ContextState

unfoldable pub new : SplitFlapAudioProvider
new = record { is_muted = true; audio_context = none }

unfoldable pub get_audio_context :
    Platform → SplitFlapAudioProvider → Option ContextState × SplitFlapAudioProvider
get_audio_context platform s =
    let present : Option ContextState = elim s.audio_context [
      | some state ↦ some state
      | none ↦ if platform.has_audio_context then some platform.created else none
    ] in
    if platform.has_window then (present, record s { audio_context = present }) else (none, s)

unfoldable pub trigger_haptic : Platform → SplitFlapAudioProvider → List Effect
trigger_haptic platform s =
    if s.is_muted then [] else if platform.has_vibrate then vibrate 10 ∷ [] else []

-- the tone of a click, by the random part of its frequency, from 0 up to 400
abbrev pub click_tone : ℕ → Tone
click_tone random = record {
  from_frequency = 800 + random;
  to_frequency = 200;
  ramp_ms = 15;
  bandpass = 1200;
  lowpass = 2500;
  from_gain = 50;
  to_gain = 1;
  stop_ms = 20;
}

-- `if (ctx.state === "suspended") ctx.resume()`, where there is a context
abbrev resumed : Option ContextState → SplitFlapAudioProvider → SplitFlapAudioProvider
resumed none s = s
resumed (some state) s = record s { audio_context = some running }

-- the rest of `playClick`, at the context
sound : ℕ → Option ContextState → List Effect
sound random none = []
sound random (some state) = tone (click_tone random) ∷ []

unfoldable pub play_click :
    Platform → ℕ → SplitFlapAudioProvider → List Effect × SplitFlapAudioProvider
unfolding get_audio_context trigger_haptic sound
play_click platform random s =
    let (context, s') = get_audio_context platform s in
    if s.is_muted
    then ([], s)
    else (trigger_haptic platform s ++ sound random context, resumed context s')

unfoldable pub toggle_mute : Platform → SplitFlapAudioProvider → SplitFlapAudioProvider
unfolding get_audio_context
toggle_mute platform s =
    let (context, s') = get_audio_context platform s in
    if s.is_muted
    then record (resumed context s') { is_muted = false }
    else record s { is_muted = true }
