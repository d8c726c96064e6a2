-- ===== src/Models/Registry.antt =====
-- app/models/registry.py
use yeoun_ai.Base.{refl, ◌⊎◌, inl, inr, ◌≡◌, Option, none, some, arith}
use yeoun_ai.Base.Exec.{Exception, Result, ok, raise, Exec, ◌>>◌}
use yeoun_ai.Config.{Settings}
use yeoun_ai.Fs.{Fs}
use yeoun_ai.Models.{Status, not_loaded, loaded, Vendor}
use yeoun_ai.Models.Gemma
use yeoun_ai.Models.Gemma.{GemmaLlm, new_gemma}
use yeoun_ai.Models.OmniVoice
use yeoun_ai.Models.OmniVoice.{OmniVoiceTts, new_omnivoice}
use yeoun_ai.Models.Ditto
use yeoun_ai.Models.Ditto.{DittoTalkingHead, new_ditto}

pub record ModelRegistry : Type 0 where
  pub llm : Option GemmaLlm
  pub tts : Option OmniVoiceTts
  pub ditto : Option DittoTalkingHead

abbrev pub new_registry : ModelRegistry
new_registry = record { llm = none; tts = none; ditto = none }

module _ (vendor : Vendor) (settings : Settings) (fs : Fs) where
  -- A model stands in the registry before it is loaded, so that a failure can be seen there.
  start_ditto : Exec ModelRegistry (Unit {0})
  start_ditto r =
      let (m, d) = Ditto.load fs (
        new_ditto settings.ditto_vendor_dir settings.ditto_data_root settings.ditto_cfg_pkl
          settings.gpu_enabled) in
      (m, record r { ditto = some d })

  after_tts : Result (Unit {0}) → Exec ModelRegistry (Unit {0})
  after_tts (ok _) r = start_ditto r
  after_tts (raise e) r = (raise e, r)

  start_tts : Exec ModelRegistry (Unit {0})
  start_tts r =
      let (m, t) =
        OmniVoice.load vendor (new_omnivoice settings.tts_model_path settings.gpu_enabled) in
      after_tts m (record r { tts = some t })

  after_llm : Result (Unit {0}) → Exec ModelRegistry (Unit {0})
  after_llm (ok _) r = start_tts r
  after_llm (raise e) r = (raise e, r)

  unfoldable pub start : Exec ModelRegistry (Unit {0})
  unfolding after_llm start_tts after_tts start_ditto
  start r =
      let (m, l) = Gemma.load vendor (
        new_gemma settings.llm_bf16_path settings.gpu_enabled settings.llm_gpu_max_memory
          settings.llm_cpu_max_memory) in
      after_llm m (record r { llm = some l })

-- Each step of `stop` unloads a model and drops it; a model whose unload raises stays.
abbrev stop_ditto : Option DittoTalkingHead → Exec ModelRegistry (Unit {0})
stop_ditto none r = (ok tt, r)
stop_ditto (some d) r = (ok tt, record r { ditto = none })

abbrev drop_tts : Result (Unit {0}) × OmniVoiceTts → Exec ModelRegistry (Unit {0})
drop_tts (ok _, t) r = (ok tt, record r { tts = none })
drop_tts (raise e, t) r = (raise e, record r { tts = some t })

abbrev stop_tts : Vendor → Option OmniVoiceTts → Exec ModelRegistry (Unit {0})
stop_tts vendor none r = (ok tt, r)
stop_tts vendor (some t) r = drop_tts (OmniVoice.unload vendor t) r

abbrev drop_llm : Result (Unit {0}) × GemmaLlm → Exec ModelRegistry (Unit {0})
drop_llm (ok _, l) r = (ok tt, record r { llm = none })
drop_llm (raise e, l) r = (raise e, record r { llm = some l })

abbrev stop_llm : Vendor → Option GemmaLlm → Exec ModelRegistry (Unit {0})
stop_llm vendor none r = (ok tt, r)
stop_llm vendor (some l) r = drop_llm (Gemma.unload vendor l) r

-- `stop`: the video model, the voice model, the language model. `DittoTalkingHead.unload` does not
-- raise, and what it sets goes with the model.
unfoldable pub stop : Vendor → Exec ModelRegistry (Unit {0})
stop vendor = do
  (λ r. stop_ditto r.ditto r)
  (λ r. stop_tts vendor r.tts r)
  λ r. stop_llm vendor r.llm r

abbrev pub llm_status : ModelRegistry → Status
llm_status r = elim r.llm [ none ↦ not_loaded | some m ↦ m.status ]

abbrev pub tts_status : ModelRegistry → Status
tts_status r = elim r.tts [ none ↦ not_loaded | some m ↦ m.status ]

abbrev pub ditto_status : ModelRegistry → Status
ditto_status r = elim r.ditto [ none ↦ not_loaded | some m ↦ m.status ]

gemma_load-loaded :
    (vendor : Vendor) (l : GemmaLlm)
    → (Gemma.load vendor l).0 ≡ ok tt
    → (Gemma.load vendor l).1.status ≡ loaded
unfolding Gemma.load
gemma_load-loaded vendor l h = ground arith

omnivoice_load-loaded :
    (vendor : Vendor) (t : OmniVoiceTts)
    → (OmniVoice.load vendor t).0 ≡ ok tt
    → (OmniVoice.load vendor t).1.status ≡ loaded
unfolding OmniVoice.load
omnivoice_load-loaded vendor t h = ground arith

ditto_load-loaded :
    (fs : Fs) (d : DittoTalkingHead)
    → (Ditto.load fs d).0 ≡ ok tt
    → (Ditto.load fs d).1.status ≡ loaded
unfolding Ditto.load
ditto_load-loaded fs d h = ground arith

-- A start that returns has loaded all three models, from any state of the registry.
pub start-loaded :
    (vendor : Vendor) (settings : Settings) (fs : Fs) (r : ModelRegistry)
    → (start vendor settings fs r).0 ≡ ok tt
    → let r' = (start vendor settings fs r).1 in
      (llm_status r' ≡ loaded) × (tts_status r' ≡ loaded) × (ditto_status r' ≡ loaded)
unfolding start
start-loaded vendor settings fs r h = ground (
  arith,
  gemma_load-loaded vendor (
      new_gemma settings.llm_bf16_path settings.gpu_enabled settings.llm_gpu_max_memory
        settings.llm_cpu_max_memory),
  omnivoice_load-loaded vendor (new_omnivoice settings.tts_model_path settings.gpu_enabled),
  ditto_load-loaded fs (
      new_ditto settings.ditto_vendor_dir settings.ditto_data_root settings.ditto_cfg_pkl
        settings.gpu_enabled),
)

-- How a stop ends: all models are dropped, or a release of the memory of the GPU has raised and the
-- video model at least is dropped.
pub data Unloads (vendor : Vendor) : Result (Unit {0}) × ModelRegistry → Type 0 where
  all_dropped : Unloads vendor (ok tt, new_registry)
  not_dropped :
      (e : Exception) (r : ModelRegistry)
      → (vendor.empty_cache_llm ≡ raise e) ⊎ (vendor.empty_cache_tts ≡ raise e)
      → r.ditto ≡ none
      → Unloads vendor (raise e, r)

module _ (vendor : Vendor) where
  gemma_unload-raise :
      (l : GemmaLlm) (e : Exception)
      → (Gemma.unload vendor l).0 ≡ raise e
      → vendor.empty_cache_llm ≡ raise e
  unfolding Gemma.unload
  gemma_unload-raise l e h = ground arith

  omnivoice_unload-raise :
      (t : OmniVoiceTts) (e : Exception)
      → (OmniVoice.unload vendor t).0 ≡ raise e
      → vendor.empty_cache_tts ≡ raise e
  unfolding OmniVoice.unload
  omnivoice_unload-raise t e h = ground arith

  -- A registry whose video model is dropped.
  abbrev left : Option GemmaLlm → Option OmniVoiceTts → ModelRegistry
  left l t = record { llm = l; tts = t; ditto = none }

  abbrev last_step : Exec ModelRegistry (Unit {0})
  last_step r = stop_llm vendor r.llm r

  drop_llm-Unloads :
      (o : Option GemmaLlm) (m : Result (Unit {0}) × GemmaLlm)
      → ((e : Exception) → m.0 ≡ raise e → vendor.empty_cache_llm ≡ raise e)
      → Unloads vendor (drop_llm m (left o none))
  drop_llm-Unloads o (ok tt, l) h = all_dropped
  drop_llm-Unloads o (raise e, l) h = not_dropped e (left (some l) none) (inl (h e refl)) refl

  last_step-Unloads : (o : Option GemmaLlm) → Unloads vendor (last_step (left o none))
  last_step-Unloads none = all_dropped
  last_step-Unloads (some l) =
      drop_llm-Unloads (some l) (Gemma.unload vendor l) (gemma_unload-raise l)

  drop_tts-Unloads :
      (l : Option GemmaLlm) (o : Option OmniVoiceTts) (m : Result (Unit {0}) × OmniVoiceTts)
      → ((e : Exception) → m.0 ≡ raise e → vendor.empty_cache_tts ≡ raise e)
      → Unloads vendor ((drop_tts m >> last_step) (left l o))
  drop_tts-Unloads l o (ok tt, t) h = last_step-Unloads l
  drop_tts-Unloads l o (raise e, t) h = not_dropped e (left l (some t)) (inr (h e refl)) refl

  stop_tts-Unloads :
      (l : Option GemmaLlm) (o : Option OmniVoiceTts)
      → Unloads vendor ((stop_tts vendor o >> last_step) (left l o))
  stop_tts-Unloads l none = last_step-Unloads l
  stop_tts-Unloads l (some t) =
      drop_tts-Unloads l (some t) (OmniVoice.unload vendor t) (omnivoice_unload-raise t)

  stop_from :
      (l : Option GemmaLlm) (t : Option OmniVoiceTts) (d : Option DittoTalkingHead)
      → Unloads vendor (stop vendor (record { llm = l; tts = t; ditto = d }))
  unfolding stop
  stop_from l t none = stop_tts-Unloads l t
  stop_from l t (some d) = stop_tts-Unloads l t

  pub stop-Unloads : (r : ModelRegistry) → Unloads vendor (stop vendor r)
  stop-Unloads r = stop_from r.llm r.tts r.ditto
