-- ===== src/Conversation/Tests.antt =====
-- A message of a small persona, run.
use yeoun_ai.Base.{false, ◌≡◌, refl, [], ◌∷◌, ◌++◌, All, nat_eq, list_eq, option_eq}
use yeoun_ai.Base.Text.{Text, codes, strip, has_infix, starts_with}
use yeoun_ai.Base.Uuid.{str_uuid}
use yeoun_ai.Base.Dict
use yeoun_ai.Fs.{mkdir, write_bytes, files_in, parent}
use yeoun_ai.Safety.{remove, first_match, check_crisis, filter_response}
use yeoun_ai.Sessions.{assistant}
use yeoun_ai.Models.Gemma
use yeoun_ai.Models.OmniVoice
use yeoun_ai.Models.Ditto
use yeoun_ai.Creation.{newest}
use yeoun_ai.Conversation.{token, text_done, media_ready, Turn, Run, trim_history, keep_newest}
use yeoun_ai.Conversation.Media.{make_media, after_media, first_ref_audio, make_video, render_video}
use yeoun_ai.Conversation.Message.{answer, guard_output, after_stream, guard_input, process_message}
use yeoun_ai.Conversation.Trim.{Trimmed, trim_history-Trimmed}
use yeoun_ai.Conversation.Courses.{IsSafe}
use yeoun_ai.Conversation.Events.{Follows, opened, process_message-Follows}
use yeoun_ai.Conversation.Guards.{
  answers, exchange, process_message-history, process_message-IsSafe,
}
use yeoun_ai.Conversation.Crisis.{Warns, process_message-Warns}
use yeoun_ai.Conversation.Files.{FilesFit, announces_media, process_message-FilesFit}
use yeoun_ai.Fixtures.{env, audio_path, fs_with, db, session, IsLower-lower_ascii, lower_ascii}

abbrev turn : Text → Turn
turn said = record { session = session; fs = fs_with said; db = db }

abbrev run : Run
run = process_message env audio_path (turn (codes "나 왔어"))

process_message_run :
    run.events
    ≡ token (codes "그래")
      ∷ token (codes ", 왔니")
      ∷ text_done 1000 (codes "그래, 왔니")
      ∷ media_ready 1000 (
          codes
            "00000000-0000-0000-0000-000000000007/speak/00000000-0000-0000-0000-000000000009/00000000-0000-0000-0000-0000000003e8.mp4")
      ∷ []
unfolding process_message guard_input after_stream guard_output answer make_media make_video
    render_video after_media first_ref_audio Gemma.transcribe Gemma.stream_response
    OmniVoice.synthesize Ditto.render_speak Ditto.run_inference Ditto.clean_up check_crisis
    filter_response first_match remove has_infix starts_with strip newest lower_ascii Dict.lookup
    Dict.insert Dict.erase mkdir parent write_bytes files_in str_uuid nat_eq list_eq
process_message_run = refl

process_message-Follows_example : Follows false 1000 opened run
process_message-Follows_example = process_message-Follows env audio_path (turn (codes "나 왔어"))

process_message-history_example :
    run.turn.session.history
    ≡ session.history
      ++ exchange 100
          (Gemma.transcribe env.vendor env.llm (fs_with (codes "나 왔어")) audio_path)
          (answers run.events)
process_message-history_example = process_message-history env audio_path (turn (codes "나 왔어"))

process_message-IsSafe_example : All (IsSafe lower_ascii) (answers run.events)
process_message-IsSafe_example = process_message-IsSafe env audio_path (turn (codes "나 왔어"))

trim_history-Trimmed_example : Trimmed 4 20 session.history (trim_history 4 20 session.history)
trim_history-Trimmed_example = trim_history-Trimmed 4 20 session.history

trim_history_run :
    trim_history 4 20 session.history ≡ record { role = assistant; text = codes "오냐" } ∷ []
unfolding trim_history keep_newest
trim_history_run = refl

process_message-FilesFit_example :
    FilesFit env audio_path session (announces_media run.events) run.turn.fs
unfolding process_message guard_input after_stream guard_output answer make_media make_video
    render_video after_media first_ref_audio Gemma.transcribe Gemma.stream_response
    OmniVoice.synthesize Ditto.render_speak Ditto.run_inference Ditto.clean_up check_crisis
    filter_response first_match remove has_infix starts_with strip newest lower_ascii Dict.lookup
    Dict.insert Dict.erase mkdir parent write_bytes files_in str_uuid nat_eq list_eq
process_message-FilesFit_example =
    process_message-FilesFit env audio_path (turn (codes "나 왔어")) refl refl

process_message-Warns_example :
    Warns env audio_path
      (turn (codes "죽고  싶어"))
      (check_crisis lower_ascii (codes "죽고  싶어")).matched_keyword
      (process_message env audio_path (turn (codes "죽고  싶어")))
unfolding Gemma.transcribe Dict.lookup strip remove nat_eq list_eq
process_message-Warns_example =
    process_message-Warns env audio_path (turn (codes "죽고  싶어")) (codes "죽고  싶어") [] (codes "죽고 싶")
      (codes "어") IsLower-lower_ascii refl refl refl refl
