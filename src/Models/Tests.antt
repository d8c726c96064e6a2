-- ===== src/Models/Tests.antt =====
-- The models started and used on a small world.
use yeoun_ai.Base.{refl, [], ◌∷◌, nat_eq, list_eq}
use yeoun_ai.Base.Text.{codes}
use yeoun_ai.Models.Ditto.{render_speak}
use yeoun_ai.Models.Ditto.Cleanup.{LeavesOutput, render_speak-LeavesOutput}
use yeoun_ai.Fixtures.{vendor, env, fs_with, audio_path}

render_speak-LeavesOutput_example : LeavesOutput (codes "out.mp4" ∷ []) (
    render_speak vendor env.ditto env.disk 5
      (codes "p.jpg" ∷ [])
      audio_path
      (codes "out.mp4" ∷ [])
      (fs_with []))
render_speak-LeavesOutput_example =
    render_speak-LeavesOutput vendor env.ditto env.disk 5 (codes "p.jpg" ∷ []) audio_path
      (codes "out.mp4" ∷ []) (fs_with []) refl refl refl
