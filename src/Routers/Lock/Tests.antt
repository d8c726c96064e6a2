-- ===== src/Routers/Lock/Tests.antt =====
-- The lock of a small session.
use yeoun_ai.Base.{◌≡◌, refl, true, none, some, List, [], ◌∷◌, nat_eq, list_eq}
use yeoun_ai.Base.Text.{codes, strip, has_infix, starts_with}
use yeoun_ai.Base.Uuid.{str_uuid}
use yeoun_ai.Base.Dict
use yeoun_ai.Fs.{FilePath, dir, exists, mkdir, write_bytes, files_in, parent, rmtree}
use yeoun_ai.Safety.{remove, first_match, check_crisis, filter_response}
use yeoun_ai.Sessions
use yeoun_ai.Sessions.{SessionStore, new_store, create}
use yeoun_ai.Models.Gemma
use yeoun_ai.Models.OmniVoice
use yeoun_ai.Models.Ditto
use yeoun_ai.Models.Registry.{new_registry}
use yeoun_ai.Creation.{newest}
use yeoun_ai.Conversation.Media.{
  mp4_path, make_media, after_media, first_ref_audio, make_video, render_video,
}
use yeoun_ai.Conversation.Message.{answer, guard_output, after_stream, guard_input, process_message}
use yeoun_ai.Routers.Lifetime.{end_session}
use yeoun_ai.Routers.Lifetime.End.{session_in, media_of}
use yeoun_ai.Routers.Lock.{Request, ending, Room, perform, Reach, here, next, takes_turn}
use yeoun_ai.Routers.Lock.Ends.{end_session-IsForgotten, late_room, late_message-LeavesVideo}
use yeoun_ai.Routers.Small.{host, store, open_app}
use yeoun_ai.Fixtures.{env, fs_with, session, audio_path, lower_ascii}

-- Session 9, with its directory.
abbrev room : Room
room = record {
  app = record open_app { fs = (media_of host session 9, dir) ∷ fs_with (codes "나 왔어") };
  session = session;
  found = ending ∷ [];
  queue = ending ∷ ending ∷ [];
}

is_listed : Sessions.get store 9 ≡ some session
unfolding Sessions.get Sessions.create Dict.lookup Dict.insert nat_eq
is_listed = refl

has_directory : exists room.app.fs (media_of host session 9) ≡ true
unfolding Dict.lookup str_uuid nat_eq list_eq
has_directory = refl

-- The room that the first end leaves to those behind it.
abbrev after : List Request → Room
after rest = perform host 9 ending (record room { queue = rest })

second_end :
    Reach host 9
      (media_of host session 9)
      (after (ending ∷ []))
      (perform host 9 ending (record (after (ending ∷ [])) { queue = [] }))
unfolding perform
second_end = next here (takes_turn (after (ending ∷ [])) ending [] refl)

end_session-IsForgotten_example :
    let s = perform host 9 ending (record (after (ending ∷ [])) { queue = [] }) in
    (session_in s.app.session_store 9 ≡ none)
    × ((p : FilePath)
        → starts_with p (media_of host session 9) ≡ true
        → Dict.lookup p s.app.fs ≡ none)
end_session-IsForgotten_example =
    end_session-IsForgotten host 9 new_registry store room refl refl is_listed (ending ∷ [])
      (perform host 9 ending (record (after (ending ∷ [])) { queue = [] })) has_directory refl
      (tt, tt) (tt, tt) second_end

late_message-LeavesVideo_example :
    (session_in (late_room host 9 env audio_path (after []) []).app.session_store 9 ≡ none)
    × (exists (late_room host 9 env audio_path (after []) []).app.fs (mp4_path env session 1000)
        ≡ true)
unfolding perform end_session Sessions.end_session Sessions.get Sessions.create rmtree
    process_message guard_input after_stream guard_output answer make_media make_video render_video
    after_media first_ref_audio Gemma.transcribe Gemma.stream_response OmniVoice.synthesize
    Ditto.render_speak Ditto.run_inference Ditto.clean_up check_crisis filter_response first_match
    remove has_infix starts_with strip newest Dict.lookup Dict.insert Dict.erase mkdir parent
    write_bytes files_in str_uuid lower_ascii nat_eq list_eq
late_message-LeavesVideo_example =
    late_message-LeavesVideo host 9 env audio_path (after []) []
      (late_room host 9 env audio_path (after []) []) refl refl refl refl tt (tt, tt) refl refl refl
      here tt
