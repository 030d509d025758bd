-- ===== src/SplitFlap/Sound.antt =====
-- When a click is heard.
use infrgate.Prelude.{ℕ, ◌≡◌, true, some, [], ◌∷◌, ◌++◌, arith, if◌then◌else◌}
use infrgate.SplitFlap.Audio.{
  Platform, running, vibrate, tone, SplitFlapAudioProvider, click_tone, play_click, toggle_mute,
}

-- Where the platform has an audio context, a click after the sound is switched on is felt, if the
-- platform vibrates, and heard, and leaves the context running; one after the sound is switched off does
-- nothing at all.
pub play_click-toggle_mute :
    (platform : Platform) (random : ℕ) (s : SplitFlapAudioProvider)
    → platform.has_window ≡ true
    → platform.has_audio_context ≡ true
    → let switched = toggle_mute platform s in
      play_click platform random switched ≡ (
        if s.is_muted
        then (
          (if platform.has_vibrate then vibrate 10 ∷ [] else []) ++ tone (click_tone random) ∷ [],
          record switched { audio_context = some running },
        )
        else ([], switched))
unfolding play_click toggle_mute
play_click-toggle_mute platform random s window audio = ground arith
