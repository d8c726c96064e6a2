-- ===== src/Conversation/Events.antt =====
-- The order of the events of a message.
use mathlib.Core.Path.{subst}
use yeoun_ai.Base.{
  ℕ, Bool, false, ◌⊎◌, inl, inr, ◌≡◌, refl, sym, true, Option, none, some, is_some, List, [], ◌∷◌,
  map, arith, if◌then◌else◌, ◌==◌, nat_eq,
}
use yeoun_ai.Base.Text.{Text}
use yeoun_ai.Base.Uuid.{Uuid}
use yeoun_ai.Base.Exec.{Exception, cancelled_error, Result, ok, raise}
use yeoun_ai.Fs.{FilePath, Fs}
use yeoun_ai.Sessions.{SessionState}
use yeoun_ai.Pipeline.{Env}
use yeoun_ai.Conversation.{Event, token, text_done, media_ready, crisis, error, Turn, Run, yields}
use yeoun_ai.Conversation.Media.{
  after_media, make_media, speak, after_mkdir, speak_dir, unbound_local_error,
}
use yeoun_ai.Conversation.Message.{
  finished, stopped, answer, process_message, message_id, with_answer,
}
use yeoun_ai.Conversation.Courses.{
  Course, stopping, failing, warning, answering, with_db, process_message-Course,
}

-- Where a client of the stream is.
pub data Phase : Type 0 where
  opened streaming answered over : Phase

-- The events that a client may see, and where they take it; `mid` is the message's id.
unfoldable pub advance : Uuid → Phase → Event → Option Phase
advance mid opened (crisis i k) = if i == mid then some over else none
advance mid opened (token s) = some streaming
advance mid opened (text_done i s) = if i == mid then some answered else none
advance mid opened (error r) = some over
advance mid streaming (token s) = some streaming
advance mid streaming (text_done i s) = if i == mid then some answered else none
advance mid streaming (error r) = some over
advance mid answered (media_ready i p) = if i == mid then some over else none
advance mid answered (error r) = some over
advance mid _ _ = none

unfoldable pub follow : Uuid → Phase → List Event → Option Phase
follow mid p [] = some p
follow mid p (e ∷ es) = elim (advance mid p e) [ none ↦ none | some q ↦ follow mid q es ]

-- A generator that ends by itself takes the client to the end; one that is cancelled, anywhere. With
-- an `UnboundLocalError` it ends only after its `text_done`, where no directory can be made.
abbrev pub Arrives : Bool → Result (Unit {0}) → Option Phase → Type 0
Arrives no_dir (ok _) p = p ≡ some over
Arrives no_dir (raise e) p =
    (e ≡ cancelled_error × is_some p ≡ true)
    ⊎ (e ≡ unbound_local_error × no_dir ≡ true × p ≡ some answered)

abbrev pub Follows : Bool → Uuid → Phase → Run → Type 0
Follows no_dir mid p r = Arrives no_dir r.ending (follow mid p r.events)

-- The directory of the session's speech cannot be made.
abbrev pub has_no_dir : Env → SessionState → Bool
has_no_dir env session = is_some (env.mkdir_stops (speak_dir env session (env.fresh 0)))

module _ (no_dir : Bool) (mid : Uuid) where
  after_media-Follows :
      (env : Env) (session : SessionState) (t : Turn) (m : Result (Unit {0}) × Fs)
      → Follows no_dir mid answered (after_media env session mid t m)
  unfolding follow advance after_media nat_eq
  after_media-Follows env session t (ok tt, fs) = ground arith
  after_media-Follows env session t (raise cancelled_error, fs) = inl (refl, refl)
  after_media-Follows env session t (raise _, fs) = refl

  tokens-streaming :
      (ts : List Text) (r : Run)
      → Follows no_dir mid streaming r
      → Follows no_dir mid streaming (yields (map token ts) r)
  unfolding follow advance
  tokens-streaming [] r h = h
  tokens-streaming (s ∷ ts) r h = tokens-streaming ts r h

  tokens-Follows :
      (ts : List Text) (r : Run)
      → Follows no_dir mid opened r
      → Follows no_dir mid streaming r
      → Follows no_dir mid opened (yields (map token ts) r)
  unfolding follow advance
  tokens-Follows [] r ho hs = ho
  tokens-Follows (s ∷ ts) r ho hs = tokens-streaming ts r hs

  follow-text_done :
      (text : Text) (es : List Event)
      → (follow mid opened (text_done mid text ∷ es) ≡ follow mid answered es)
        × (follow mid streaming (text_done mid text ∷ es) ≡ follow mid answered es)
  unfolding follow advance nat_eq
  follow-text_done text es = (ground arith, ground arith)

  done-Follows :
      (text : Text) (r : Run)
      → Follows no_dir mid answered r
      → Follows no_dir mid opened (yields (text_done mid text ∷ []) r)
        × Follows no_dir mid streaming (yields (text_done mid text ∷ []) r)
  done-Follows text r h = (
    subst (Arrives no_dir r.ending) (sym (follow-text_done text r.events).0) h,
    subst (Arrives no_dir r.ending) (sym (follow-text_done text r.events).1) h,
  )

module _ (env : Env) (audio_path : FilePath) where
  after_mkdir-Follows :
      (session : SessionState) (text : Text) (t : Turn) (o : Option (Exception × ℕ))
      → Follows (is_some o) (env.fresh 0) answered (after_mkdir env session (env.fresh 0) text t o)
  unfolding follow
  after_mkdir-Follows session text t none =
      after_media-Follows false (env.fresh 0) env session t
        (make_media env session (env.fresh 0) text t.fs)
  after_mkdir-Follows session text t (some (cancelled_error, made)) = inl (refl, refl)
  after_mkdir-Follows session text t (some (_, made)) = inr (refl, refl, refl)

  answer-Follows :
      (user_text final_text : Text) (t : Turn)
      → let r = answer env audio_path user_text final_text t in
        Follows (has_no_dir env t.session) (message_id env audio_path) opened r
        × Follows (has_no_dir env t.session) (message_id env audio_path) streaming r
  unfolding answer
  answer-Follows user_text final_text t =
      let t' : Turn = record t { session = with_answer env.now user_text final_text t.session } in
      done-Follows (has_no_dir env t.session) (env.fresh 0) final_text
        (speak env t'.session (env.fresh 0) final_text t')
        (after_mkdir-Follows t'.session final_text t'
          (env.mkdir_stops (speak_dir env t'.session (env.fresh 0))))

  Course-Follows :
      (t : Turn) (r : Run)
      → Course env audio_path t r
      → Follows (has_no_dir env t.session) (message_id env audio_path) opened r
  unfolding follow advance nat_eq
  Course-Follows t _ (stopping ts db) =
      tokens-Follows (has_no_dir env t.session) (env.fresh 0) ts (stopped (with_db t db))
        (inl (refl, refl)) (inl (refl, refl))
  Course-Follows t _ (failing ts reason) =
      tokens-Follows (has_no_dir env t.session) (env.fresh 0) ts
        (yields (error reason ∷ []) (finished t)) refl refl
  Course-Follows t _ (warning keyword db) = ground arith
  Course-Follows t _ (answering ts user_text final_text db heard safe) =
      let h = answer-Follows user_text final_text (with_db t db) in
      tokens-Follows (has_no_dir env t.session) (env.fresh 0) ts
        (answer env audio_path user_text final_text (with_db t db)) h.0 h.1

-- The events of a message follow the protocol: tokens, then an `error` or a `text_done` and after it
-- a `media_ready` or an `error`; or a single `crisis` or `error`. All ids are the message's. Only
-- two stop before the end of the protocol: a message that is cancelled, anywhere; and one for which the
-- directory of the session's speech cannot be made, right after its `text_done`.
pub process_message-Follows :
    (env : Env) (audio_path : FilePath) (t : Turn)
    → Follows
        (has_no_dir env t.session)
        (message_id env audio_path)
        opened
        (process_message env audio_path t)
process_message-Follows env audio_path t =
    Course-Follows env audio_path t _ (process_message-Course env audio_path t)
