-- ===== src/Routers/Media/Tests.antt =====
-- A small persona that is made ready, and its second clip.
use yeoun_ai.Base.{ℕ, ◌≡◌, refl, false, none, some, [], ◌∷◌, ◌++◌, nat_eq, list_eq, arith}
use yeoun_ai.Base.Text.{codes, starts_with}
use yeoun_ai.Base.Number.{decimal, parse_int}
use yeoun_ai.Base.Int.{pos}
use yeoun_ai.Base.Uuid.{str_uuid}
use yeoun_ai.Base.Dict
use yeoun_ai.Fs.{File, dir, file, get_file, mkdir, files_in, parent, append_name, write_bytes, name}
use yeoun_ai.Db.Repository.{update_persona_status, insert_persona_idle_clip, set_persona_status}
use yeoun_ai.Models.Ditto
use yeoun_ai.Creation
use yeoun_ai.Creation.{
  World, newest, pick_file, pick_voice_file, pick_photo_file, transcribe_voice, set_step, root,
  clip_path, ready, get,
}
use yeoun_ai.Creation.Steps.{prepare_voice_ref, render_idle_clips}
use yeoun_ai.Creation.Steps.Clips.{NoDirs}
use yeoun_ai.Creation.Made.{step_of}
use yeoun_ai.Creation.Process.{
  step_to, status_to, insert_clip, insert_clips, drop_ref_text, render_part, build, try_block,
  prepare_ref, handle, process_persona, stem,
}
use yeoun_ai.Routers.{App}
use yeoun_ai.Routers.Media.{get_idle_clip, stream_response}
use yeoun_ai.Routers.Media.Ready.{process_persona-IsServed}
use yeoun_ai.Routers.Small.{host, store, open_app, is_plain}
use yeoun_ai.Base.Text.{strip, has_infix}
use yeoun_ai.Sessions
use yeoun_ai.Safety.{remove, first_match, check_crisis, filter_response}
use yeoun_ai.Models.Gemma
use yeoun_ai.Models.OmniVoice
use yeoun_ai.Conversation.{Turn, Run}
use yeoun_ai.Conversation.Media.{
  mp4_path, make_media, after_media, first_ref_audio, make_video, render_video,
}
use yeoun_ai.Conversation.Message.{answer, guard_output, after_stream, guard_input, process_message}
use yeoun_ai.Routers.Media.{get_session_media}
use yeoun_ai.Routers.Media.Video.{process_message-IsServed}
use yeoun_ai.Fixtures.{env, fs_with, db, session, audio_path, lower_ascii}

-- A persona without its clips.
abbrev world : World
world = record {
  fs =
      (root env 7 ++ (codes "voice" ∷ []), dir)
      ∷ (
        root env 7 ++ (codes "voice" ∷ codes "v.wav" ∷ []),
        file (record { content = 9 ∷ []; mtime = 1 }),
      )
      ∷ (root env 7 ++ (codes "photo" ∷ []), dir)
      ∷ fs_with [];
  db = db;
  progress = [];
}

abbrev after : World
after = (process_persona env 7 world).1

ends_ready : step_of (get after.progress 7) ≡ some ready
unfolding process_persona handle try_block build render_part prepare_ref drop_ref_text insert_clips
    insert_clip stem step_to status_to prepare_voice_ref render_idle_clips pick_file pick_voice_file
    pick_photo_file transcribe_voice newest set_step Creation.get Ditto.render_idle
    Ditto.render_speak Ditto.run_inference Ditto.clean_up update_persona_status
    insert_persona_idle_clip set_persona_status mkdir parent files_in append_name write_bytes name
    decimal parse_int starts_with str_uuid Dict.lookup Dict.insert Dict.erase nat_eq list_eq
ends_ready = refl

no_dirs : NoDirs env 7 world.fs
unfolding Dict.lookup str_uuid nat_eq list_eq
no_dirs j = refl

temp_elsewhere : (j : ℕ) → starts_with (env.temp_path j) (root env 7) ≡ false
unfolding starts_with nat_eq list_eq
temp_elsewhere j = refl

abbrev serving : App
serving = record open_app { fs = after.fs; db = after.db }

process_persona-IsServed_example :
    (f : File) × (get_file serving.fs (clip_path env 7 1) ≡ some f)
    × ((get_idle_clip host 7 (pos 1) none serving).0 ≡ stream_response f.content none)
unfolding Dict.lookup nat_eq
process_persona-IsServed_example =
    process_persona-IsServed host 7 is_plain world serving 1 none temp_elsewhere no_dirs refl
      ends_ready (omega arith) refl refl

-- A message, and the application after it.
abbrev turn : Turn
turn = record { session = session; fs = fs_with (codes "나 왔어"); db = db }

abbrev run : Run
run = process_message env audio_path turn

abbrev answered : App
answered = record open_app { fs = run.turn.fs; session_store = some store }

process_message-IsServed_example :
    (f : File) × (get_file answered.fs (mp4_path env session 1000) ≡ some f)
    × ((get_session_media host session.session_id 1000 none answered).0
        ≡ stream_response f.content none)
unfolding Sessions.get Sessions.create process_message guard_input after_stream guard_output answer
    make_media make_video render_video after_media first_ref_audio Gemma.transcribe
    Gemma.stream_response OmniVoice.synthesize Ditto.render_speak Ditto.run_inference Ditto.clean_up
    check_crisis filter_response first_match remove has_infix starts_with strip newest lower_ascii
    Dict.lookup Dict.insert Dict.erase mkdir parent write_bytes files_in str_uuid nat_eq list_eq
process_message-IsServed_example =
    process_message-IsServed host env audio_path turn answered session store none is_plain refl
      (omega arith) refl refl refl refl refl refl refl refl
