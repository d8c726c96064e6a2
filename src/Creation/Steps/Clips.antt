-- ===== src/Creation/Steps/Clips.antt =====
-- The clips that `_render_idle_clips` leaves.
use mathlib.Core.Path.{subst}
use mathlib.Core.List.{append_assoc}
use yeoun_ai.Base.{
  ℕ, zero, suc, ◌+◌, ◌≡◌, ◌<◌, ◌≤◌, refl, sym, ap, ◌∙◌, true, false, List, [], ◌∷◌, ◌++◌, arith,
  ◌==◌, nat_eq, list_eq, length, length-append, Bool-cases, inl, inr, eq_of_beq,
}
use yeoun_ai.Base.Text.{codes, starts_with, starts_with-append}
use yeoun_ai.Base.Number.{decimal}
use yeoun_ai.Base.Uuid.{Uuid}
use yeoun_ai.Base.Exec.{Result, ok, pure, ◌>>=◌, >>=-eq-ok}
use yeoun_ai.Fs.{FilePath, Fs, mkdir, parent}
use yeoun_ai.Fs.Nodes.{
  NoDir, HasFile, exists-HasFile, write-NoDir, write-HasFile, unlink-NoDir, unlink-HasFile,
  mkdir-NoDir, mkdir-HasFile, ne_outside, parent-append,
}
use yeoun_ai.Models.Ditto
use yeoun_ai.Models.Ditto.Files.{Survives, render_idle_survives}
use yeoun_ai.Pipeline.{Env}
use yeoun_ai.Creation.{has_content, root, idle_dir, clip_path}
use yeoun_ai.Creation.Steps.{render_clip, render_from, render_idle_clips}

module _ (env : Env) (pid : Uuid) where
  abbrev clip : ℕ → FilePath
  clip = clip_path env pid

  -- No directory is at the path of a clip.
  abbrev pub NoDirs : Fs → Type 0
  NoDirs fs = (j : ℕ) → NoDir (clip_path env pid j) fs

  pub parent-clip : (i : ℕ) → parent (clip i) ≡ idle_dir env pid
  parent-clip i = parent-append (idle_dir env pid) (decimal i ++ codes ".mp4")

  pub length-clip : (j : ℕ) → length (idle_dir env pid) < length (clip j)
  length-clip j = omega (arith, length-append (idle_dir env pid) ((decimal j ++ codes ".mp4") ∷ []))

  clip_in_root : (j : ℕ) → starts_with (clip j) (root env pid) ≡ true
  clip_in_root j =
      ap (λ (p : FilePath). starts_with p (root env pid))
        (append_assoc (root env pid) (codes "idle" ∷ []) ((decimal j ++ codes ".mp4") ∷ []))
      ∙ starts_with-append (root env pid) (codes "idle" ∷ (decimal j ++ codes ".mp4") ∷ [])

  NoDir-Survives : (i j : ℕ) → Survives (NoDir (clip j)) (clip i)
  NoDir-Survives i j = record {
    on_write = λ p content now fs h. write-NoDir p (clip j) content now fs h;
    on_mkdir = λ fs h.
        mkdir-NoDir (parent (clip i)) (clip j) fs
          (omega (arith, ap (length {0}) (parent-clip i), length-clip j)) h;
  }

  HasFile-Survives : (i j : ℕ) → Survives (HasFile (clip j)) (clip i)
  HasFile-Survives i j = record {
    on_write = λ p content now fs h. write-HasFile p (clip j) content now fs h;
    on_mkdir = λ fs h. mkdir-HasFile (parent (clip i)) (clip j) fs h;
  }

  module _ (apart : (i : ℕ) → starts_with (env.temp_path i) (root env pid) ≡ false)
      (photo_path : FilePath) where
    clip-ne-temp : (i j : ℕ) → (clip j == env.temp_path i) ≡ false
    clip-ne-temp i j =
        ne_outside (env.temp_path i) (clip j) (root env pid) (clip_in_root j) (apart i)

    -- What one round leaves: its clip, and the clips that were there.
    record Rounds (i : ℕ) (fs fs' : Fs) : Type 0 where
      no_dirs : NoDirs fs'
      made : HasFile (clip i) fs'
      kept : (j : ℕ) → HasFile (clip j) fs → HasFile (clip j) fs'

    render_idle-Rounds :
        (i : ℕ) (fs : Fs)
        → (Ditto.render_idle env.vendor env.ditto env.disk env.now
            (env.temp_path i)
            photo_path
            (clip i)
            70
            fs).0
          ≡ ok tt
        → NoDirs fs
        → Rounds i fs
            (Ditto.render_idle env.vendor env.ditto env.disk env.now
              (env.temp_path i)
              photo_path
              (clip i)
              70
              fs).1
    render_idle-Rounds i fs h n =
        let survives =
          render_idle_survives env.vendor env.ditto env.disk env.now (env.temp_path i) photo_path
            (clip i) 70 in
        record {
          no_dirs = λ j.
              survives (NoDir (clip j)) (NoDir (clip j)) (NoDir-Survives i j)
                (λ fs' there p. unlink-NoDir (env.temp_path i) (clip j) fs' p) fs h (n j);
          made =
              survives (NoDir (clip i)) (HasFile (clip i)) (NoDir-Survives i i)
                (λ fs' there p.
                  unlink-HasFile (env.temp_path i) (clip i) fs' (clip-ne-temp i i)
                    (exists-HasFile (clip i) fs' there p))
                fs h (n i);
          kept = λ j.
              survives (HasFile (clip j)) (HasFile (clip j)) (HasFile-Survives i j)
                (λ fs' there p. unlink-HasFile (env.temp_path i) (clip j) fs' (clip-ne-temp i j) p)
                fs h;
        }

    has_content-HasFile : (p : FilePath) (fs : Fs) → has_content fs p ≡ true → HasFile p fs
    has_content-HasFile p fs h = ground arith

    render_clip_new :
        (i : ℕ) (fs : Fs)
        → has_content fs (clip i) ≡ false
        → render_clip env photo_path (clip i) i fs
          ≡ Ditto.render_idle env.vendor env.ditto env.disk env.now
              (env.temp_path i)
              photo_path
              (clip i)
              70
              fs
    unfolding render_clip
    render_clip_new i fs new = rw new refl

    render_clip-Rounds :
        (i : ℕ) (fs : Fs)
        → (render_clip env photo_path (clip i) i fs).0 ≡ ok tt
        → NoDirs fs
        → Rounds i fs (render_clip env photo_path (clip i) i fs).1
    unfolding render_clip
    render_clip-Rounds i fs h n = elim (Bool-cases (has_content fs (clip i))) [
      | inl old ↦
          rw old
            (record { no_dirs = n; made = has_content-HasFile (clip i) fs old; kept = λ j p. p })
      | inr new ↦
          let run = render_clip_new i fs new in
          subst (λ (m : Result (Unit {0}) × Fs). Rounds i fs m.1) (sym run)
            (render_idle-Rounds i fs (ap (λ (m : Result (Unit {0}) × Fs). m.0) (sym run) ∙ h) n)
    ]

    -- The clips from `i` on, `n` of them, and those that were there.
    record Loops (n i : ℕ) (fs fs' : Fs) : Type 0 where
      made : (j : ℕ) → i ≤ j → j < i + n → HasFile (clip j) fs'
      kept : (j : ℕ) → HasFile (clip j) fs → HasFile (clip j) fs'

    render_from-Loops :
        (n i : ℕ) (fs : Fs) (paths : List FilePath)
        → (render_from env clip photo_path n i fs).0 ≡ ok paths
        → NoDirs fs
        → Loops n i fs (render_from env clip photo_path n i fs).1
    unfolding render_from
    render_from-Loops zero i fs paths h d = record {
      made = λ j l m. absurd (omega arith);
      kept = λ j p. p;
    }
    render_from-Loops (suc n) i fs paths h d =
        let first = render_clip env photo_path (clip i) i in
        let others = render_from env clip photo_path n (i + 1) in
        let last = λ (rest : List FilePath). pure {S = Fs} (clip i ∷ rest) in
        let (_, e1, r1) = >>=-eq-ok first (λ _. others >>= last) fs paths h in
        let fs1 = (first fs).1 in
        let h1 : ((others >>= last) fs1).0 ≡ ok paths =
          ap (λ (m : Result (List FilePath) × Fs). m.0) (sym r1) ∙ h in
        let (rest, e2, r2) = >>=-eq-ok others last fs1 paths h1 in
        let round = render_clip-Rounds i fs e1 d in
        let loops = render_from-Loops n (i + 1) fs1 rest e2 round.no_dirs in
        subst (λ (m : Result (List FilePath) × Fs). Loops (suc n) i fs m.1) (sym (r1 ∙ r2))
          (record {
            made = λ j l m. elim (Bool-cases (j == i)) [
              | inl same ↦
                  subst (λ (k : ℕ). HasFile (clip k) (others fs1).1) (sym (eq_of_beq j i same))
                    (loops.kept i round.made)
              | inr other ↦ loops.made j (ground arith) (omega arith)
            ];
            kept = λ j p. loops.kept j (round.kept j p);
          })

    -- Both clips are there, as files, when `_render_idle_clips` returns.
    pub render_idle_clips-made :
        (fs : Fs) (paths : List FilePath)
        → (render_idle_clips env pid photo_path fs).0 ≡ ok paths
        → NoDirs fs
        → HasFile (clip 0) (render_idle_clips env pid photo_path fs).1
          × HasFile (clip 1) (render_idle_clips env pid photo_path fs).1
    unfolding render_idle_clips
    render_idle_clips-made fs paths h d =
        let loops =
          render_from-Loops 2 0 (mkdir (idle_dir env pid) fs) paths h
            (λ j. mkdir-NoDir (idle_dir env pid) (clip j) fs (length-clip j) (d j)) in
        (loops.made 0 (omega arith) (omega arith), loops.made 1 (omega arith) (omega arith))
