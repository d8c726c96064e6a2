-- ===== src/Conversation/Cleanup.antt =====
-- The files that a message leaves.
use mathlib.Core.Path.{subst}
use mathlib.Core.List.{append_cancel_left, head-eq_of_cons-eq, tail-eq_of_cons-eq}
use yeoun_ai.Base.{
  ◌≡◌, sym, ◌∙◌, true, false, ◌++◌, arith, ◌==◌, nat_eq, list_eq, Bool-cases, eq_of_beq, inl, inr,
}
use yeoun_ai.Base.Text.{Text, codes}
use yeoun_ai.Base.Uuid.{Uuid, str_uuid}
use yeoun_ai.Base.Dict
use yeoun_ai.Base.Exec.{Result, ok, Exec, lift, modify, >>=-post, >>-eq-ok}
use yeoun_ai.Fs.{FilePath, Fs, exists, is_file, unlink, mkdir}
use yeoun_ai.Sessions.{SessionState}
use yeoun_ai.Models.OmniVoice
use yeoun_ai.Models.Ditto
use yeoun_ai.Models.Ditto.Cleanup.{get_file-unlink, render_speak-output}
use yeoun_ai.Pipeline.{Env}
use yeoun_ai.Conversation.Media.{
  make_media, wav_path, mp4_path, speak_dir, make_video, render_video,
}

mp4-ne-wav : (u : Text) → u ++ codes ".mp4" ≡ u ++ codes ".wav" → ⊥
mp4-ne-wav u e = differ (append_cancel_left u _ _ e)
  where
    differ : codes ".mp4" ≡ codes ".wav" → ⊥
    differ h = omega (arith, head-eq_of_cons-eq (tail-eq_of_cons-eq h))

pub exists-unlink :
    (p q : FilePath) (fs : Fs) → (q == p) ≡ false → exists (unlink p fs) q ≡ exists fs q
exists-unlink p q fs h = ground (arith, Dict.lookup-erase q p fs)

is_file-unlink : (p : FilePath) (fs : Fs) → is_file (unlink p fs) p ≡ false
is_file-unlink p fs = ground (arith, get_file-unlink p p fs)

is_file-unlink_other :
    (p q : FilePath) (fs : Fs) → is_file fs q ≡ false → is_file (unlink p fs) q ≡ false
is_file-unlink_other p q fs h = ground (arith, get_file-unlink p q fs)

module _ (env : Env) (session : SessionState) (mid : Uuid) where
  wav-mp4 : (mp4_path env session mid == wav_path env session mid) ≡ false
  wav-mp4 = elim (Bool-cases (mp4_path env session mid == wav_path env session mid)) [
    | inr h ↦ h
    | inl h ↦
        let e = append_cancel_left (speak_dir env session mid) _ _ (eq_of_beq _ _ h) in
        absurd (mp4-ne-wav (str_uuid mid) (head-eq_of_cons-eq e))
  ]

  -- The video is there, and the speech is not.
  abbrev pub HasVideo : Fs → Type 0
  HasVideo fs =
      (exists fs (mp4_path env session mid) ≡ true)
      × (is_file fs (wav_path env session mid) ≡ false)

  abbrev pub HasNothing : Fs → Type 0
  HasNothing fs =
      (is_file fs (mp4_path env session mid) ≡ false)
      × (is_file fs (wav_path env session mid) ≡ false)

  unlink-HasVideo :
      (fs : Fs)
      → exists fs (mp4_path env session mid) ≡ true
      → HasVideo (unlink (wav_path env session mid) fs)
  unlink-HasVideo fs h = (exists-unlink _ _ fs wav-mp4 ∙ h, is_file-unlink _ fs)

  pub unlink-HasNothing :
      (fs : Fs)
      → HasNothing (unlink (mp4_path env session mid) (unlink (wav_path env session mid) fs))
  unlink-HasNothing fs =
      let wav = wav_path env session mid in
      (is_file-unlink _ (unlink wav fs), is_file-unlink_other _ wav _ (is_file-unlink wav fs))

  render_video-HasVideo :
      (photo_path : FilePath) (fs : Fs)
      → (render_video env session mid photo_path fs).0 ≡ ok tt
      → HasVideo (render_video env session mid photo_path fs).1
  unfolding render_video
  render_video-HasVideo photo_path fs h =
      let wav = wav_path env session mid in
      let mp4 = mp4_path env session mid in
      let m : Exec Fs (Unit {0}) =
        Ditto.render_speak env.vendor env.ditto env.disk env.now photo_path wav mp4 in
      let e = >>-eq-ok m (modify (unlink wav)) fs h in
      subst (λ (r : Result (Unit {0}) × Fs). HasVideo r.1) (sym e.1)
        (unlink-HasVideo (m fs).1
          (render_speak-output env.vendor env.ditto env.disk env.now photo_path wav mp4 fs e.0))

  make_video-HasVideo :
      (fs : Fs)
      → (make_video env session mid fs).0 ≡ ok tt
      → HasVideo (make_video env session mid fs).1
  unfolding make_video
  make_video-HasVideo fs =
      >>=-post HasVideo (lift _) (render_video env session mid) fs render_video-HasVideo

  pub make_media-HasVideo :
      (text : Text) (fs : Fs)
      → (make_media env session mid text fs).0 ≡ ok tt
      → HasVideo (make_media env session mid text fs).1
  unfolding make_media
  make_media-HasVideo text fs =
      >>=-post HasVideo (lift _) _ (mkdir (speak_dir env session mid) fs) (λ ref fs'.
        >>=-post HasVideo
          (OmniVoice.synthesize env.vendor env.tts env.disk env.now text ref.0 ref.1
            (wav_path env session mid))
          (λ _. make_video env session mid) fs' (λ _. make_video-HasVideo))
