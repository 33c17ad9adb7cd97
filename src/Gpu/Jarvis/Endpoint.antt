-- ===== src/Gpu/Jarvis/Endpoint.antt =====
-- What a session with the JarvisLabs provider finds, and which instance it pauses.
use mathlib.Core.Path.{subst₂}
use mathlib.Core.Option.{some-injective}
use text.Mathlib.TextEquality.{eq_iff}
use atlas_compliance_copilot.Prelude.{
  ◌≡◌, refl, sym, ap, ◌∙◌, String, Bool, true, false, not, ◌&&◌, Option, none, some, [], str_eq,
  if◌then◌else◌, ◌⊎◌, inl, inr,
}
use atlas_compliance_copilot.Exec.{Result, ok, raise, Exec, continue, pure}
use atlas_compliance_copilot.Gpu.Roles.{
  Roles, get, classify_endpoints, answers, first_answer, get-classify_endpoints,
}
use atlas_compliance_copilot.Gpu.Session.{run_with_gpu, bring_up}
use atlas_compliance_copilot.Gpu.Session.Guard.{work, run_with_gpu-paused}
use atlas_compliance_copilot.Gpu.Jarvis.{
  InstanceInfo, Jarvis, Deps, lift, call, is_running, resume, pause, discover_endpoints, preferred,
  endpoint, provider, needs_id, update, classified, remember, url_or_raise, is_empty, truthy,
  first_of,
}

module _ {W : Type 0} (S : Deps W) where
  -- Of two optional URLs the first that is there and not empty is the one to take.
  abbrev pub Prefers : Option String → Option String → String → Type 0
  Prefers a b url =
      ((a ≡ some url) × (str_eq url "" ≡ false))
      ⊎ (((a ≡ none) ⊎ (a ≡ some "")) × ((b ≡ some url) × (str_eq url "" ≡ false)))

  truthy-some :
      (o : Option String) (url : String)
      → truthy S o ≡ some url
      → (o ≡ some url) × (str_eq url "" ≡ false)
  unfolding truthy
  truthy-some none url h = cc
  truthy-some (some u) url h = by_test (str_eq u "") refl h
    where
      by_test :
          (b : Bool)
          → str_eq u "" ≡ b
          → (if b then none else some u) ≡ some url
          → (some u ≡ some url) × (str_eq url "" ≡ false)
      by_test true e k = cc
      by_test false e k = (k, ap (λ x. str_eq x "") (sym (some-injective _ _ k)) ∙ e)

  truthy-none : (o : Option String) → truthy S o ≡ none → (o ≡ none) ⊎ (o ≡ some "")
  unfolding truthy
  truthy-none none h = inl refl
  truthy-none (some u) h = by_test (str_eq u "") refl h
    where
      by_test :
          (b : Bool)
          → str_eq u "" ≡ b
          → ◌≡◌ {A = Option String} (if b then none else some u) none
          → (some u ≡ none) ⊎ (some u ≡ some "")
      by_test true e k = inr (ap some ((eq_iff u "").0 e))
      by_test false e k = cc

  preferred-Prefers :
      (roles : Roles) (url : String)
      → preferred S roles ≡ some url
      → Prefers (get "ollama" roles) (get "vllm" roles) url
  unfolding preferred first_of
  preferred-Prefers roles url h = by_ollama (truthy S (get "ollama" roles)) refl h
    where
      by_ollama :
          (o : Option String)
          → truthy S (get "ollama" roles) ≡ o
          → first_of S o (truthy S (get "vllm" roles)) ≡ some url
          → Prefers (get "ollama" roles) (get "vllm" roles) url
      by_ollama none e k =
          inr (truthy-none (get "ollama" roles) e, truthy-some (get "vllm" roles) url k)
      by_ollama (some u) e k = inl (truthy-some (get "ollama" roles) url (e ∙ k))

  endpoint_uncached :
      (j : Jarvis) (w w₁ : W) (info : InstanceInfo)
      → j.roles ≡ []
      → S.client.get_instance j.instance_id w ≡ (ok info, w₁)
      → (endpoint S (j, w)).0
        ≡ (url_or_raise S (preferred S (classify_endpoints S.probe info.endpoints w₁).0) (
          record j { roles = (classify_endpoints S.probe info.endpoints w₁).0 },
          (classify_endpoints S.probe info.endpoints w₁).1,
        )).0
  unfolding endpoint discover_endpoints is_empty call lift classified remember
  endpoint_uncached j w w₁ info empty found = rw (empty, found)

  url_or_raise-ok :
      (o : Option String) (s : Jarvis × W) (url : String)
      → (url_or_raise S o s).0 ≡ ok url
      → o ≡ some url
  unfolding url_or_raise
  url_or_raise-ok none s url h = cc
  url_or_raise-ok (some u) s url h = cc

  -- In a provider with nothing cached, the instance's endpoints are probed, and the URL returned is
  -- not empty: it is the first that answered as Ollama, or, where no URL or the empty one did so, the
  -- first that answered as vLLM.
  pub endpoint-first_answer :
      (j : Jarvis) (w w₁ : W) (info : InstanceInfo) (url : String) (s : Jarvis × W)
      → j.roles ≡ []
      → S.client.get_instance j.instance_id w ≡ (ok info, w₁)
      → endpoint S (j, w) ≡ (ok url, s)
      → Prefers
          (first_answer S.probe "ollama" (answers S.probe info.endpoints w₁))
          (first_answer S.probe "vllm" (answers S.probe info.endpoints w₁))
          url
  endpoint-first_answer j w w₁ info url s empty found h =
      subst₂ (λ a b. Prefers a b url)
        (get-classify_endpoints S.probe "ollama" info.endpoints w₁ refl)
        (get-classify_endpoints S.probe "vllm" info.endpoints w₁ refl)
        (preferred-Prefers _ url (
          url_or_raise-ok _ _ url
            (sym (endpoint_uncached j w w₁ info empty found) ∙ ap (λ r. r.0) h)))

  -- A stage that leaves the instance's id alone.
  abbrev pub Keeps : {A : Type 0} → (Exec (Jarvis × W) A) → Type 0
  Keeps {A = A} m = (j : Jarvis) (w : W) → (m (j, w)).1.0.instance_id ≡ j.instance_id

  continue-id :
      {A B : Type 0} (id : String) (r : Result A × (Jarvis × W)) (f : A → Exec (Jarvis × W) B)
      → r.1.0.instance_id ≡ id
      → ((a : A) → Keeps (f a))
      → (continue r f).1.0.instance_id ≡ id
  continue-id id (ok a, (j, w)) f h k = k a j w ∙ h
  continue-id id (raise e, s) f h k = h

  pub call-Keeps : {A : Type 0} (f : Jarvis → Exec W A) → Keeps (call S f)
  unfolding call lift
  call-Keeps f j w = refl

  either-id :
      {A : Type 0} (b : Bool) (x y : Result A × (Jarvis × W)) (id : String)
      → x.1.0.instance_id ≡ id
      → y.1.0.instance_id ≡ id
      → (if b then x else y).1.0.instance_id ≡ id
  either-id true x y id h k = h
  either-id false x y id h k = k

  discover-Keeps : (refresh : Bool) → Keeps (discover_endpoints S refresh)
  unfolding discover_endpoints classified remember
  discover-Keeps refresh j w =
      either-id (not (is_empty S j.roles) && not refresh) _ _ j.instance_id refl (
        continue-id j.instance_id (call S (λ j'. S.client.get_instance j'.instance_id) (j, w))
          (classified S) (call-Keeps (λ j'. S.client.get_instance j'.instance_id) j w)
          (λ info j' w'. refl))

  endpoint-Keeps : Keeps (endpoint S)
  unfolding endpoint url_or_raise
  endpoint-Keeps j w =
      continue-id j.instance_id (discover_endpoints S false (j, w)) _ (discover-Keeps false j w)
        (λ roles j' w'. ends (preferred S roles) j' w')
    where
      ends :
          (o : Option String) (j' : Jarvis) (w' : W)
          → (url_or_raise S o (j', w')).1.0.instance_id ≡ j'.instance_id
      ends none j' w' = refl
      ends (some url) j' w' = refl

  pause_named :
      (s : Jarvis × W)
      → str_eq s.0.instance_id "" ≡ false
      → (pause S s).1.1 ≡ (S.client.pause_instance s.0.instance_id s.1).1
  unfolding pause needs_id call lift
  pause_named (j, w) h = simp h refl

  resume_renamed :
      (j : Jarvis) (w w₁ w₂ : W) (info resumed : InstanceInfo)
      → str_eq j.instance_id "" ≡ false
      → S.client.get_instance j.instance_id w ≡ (ok info, w₁)
      → is_running S info ≡ false
      → S.client.resume_instance j.instance_id w₁ ≡ (ok resumed, w₂)
      → resume S (j, w) ≡ (ok tt, (record j { instance_id = resumed.machine_id; roles = [] }, w₂))
  unfolding resume needs_id call lift update
  resume_renamed j w w₁ w₂ info resumed named got stopped back =
      simp (named, got, stopped, back) refl

  ready-Keeps :
      (skip : Bool) (m : Exec W (Unit {0})) → Keeps (if skip then pure tt else call S (λ _. m))
  ready-Keeps true m j w = refl
  ready-Keeps false m j w = call-Keeps (λ _. m) j w

  work-id :
      {A : Type 0} (ready : String → Exec W (Unit {0})) (skip_health : Bool)
      (body : String → Exec W A) (s : Jarvis × W) (id : String)
      → (resume S s).1.0.instance_id ≡ id
      → (work
          (provider S)
          (λ url. call S (λ _. ready url))
          skip_health
          (λ url. call S (λ _. body url))
          s).1.0.instance_id
        ≡ id
  unfolding work bring_up provider
  work-id ready skip_health body s id h =
      continue-id id (bring_up (provider S) (λ url. call S (λ _. ready url)) skip_health s) _
        (continue-id id (resume S s) _ h (λ _ j w.
          continue-id j.instance_id (endpoint S (j, w)) _ (endpoint-Keeps j w) (λ url j' w'.
            continue-id j'.instance_id
              ((if skip_health then pure tt else call S (λ _. ready url)) (j', w')) _
              (ready-Keeps skip_health (ready url) j' w') (λ _ j'' w''. refl))))
        (λ url. call-Keeps (λ _. body url))

  -- Where the provider has an id, the instance is found not running and its resume returns a named
  -- instance, that one is paused in the end, for any readiness check and any body over the world.
  pub run_with_gpu-pauses_resumed :
      {A : Type 0} (ready : String → Exec W (Unit {0})) (skip_health : Bool)
      (body : String → Exec W A) (j : Jarvis) (w w₁ w₂ : W) (info resumed : InstanceInfo)
      → str_eq j.instance_id "" ≡ false
      → S.client.get_instance j.instance_id w ≡ (ok info, w₁)
      → is_running S info ≡ false
      → S.client.resume_instance j.instance_id w₁ ≡ (ok resumed, w₂)
      → str_eq resumed.machine_id "" ≡ false
      → (w' : W) × ((run_with_gpu
            (provider S)
            (λ url. call S (λ _. ready url))
            skip_health
            (λ url. call S (λ _. body url))
            (j, w)).1.1
          ≡ (S.client.pause_instance resumed.machine_id w').1)
  unfolding pause provider
  run_with_gpu-pauses_resumed ready skip_health body j w w₁ w₂ info resumed named got stopped back
        renamed =
      let end =
        work (provider S) (λ url. call S (λ _. ready url)) skip_health
          (λ url. call S (λ _. body url)) (j, w) in
      let same =
        work-id ready skip_health body (j, w) resumed.machine_id
          (ap (λ r. r.1.0.instance_id)
            (resume_renamed j w w₁ w₂ info resumed named got stopped back)) in
      (
        end.1.1,
        ap (λ s. s.1)
              (run_with_gpu-paused (provider S) (λ url. call S (λ _. ready url)) skip_health
                (λ url. call S (λ _. body url)) (j, w))
            ∙ pause_named end.1 (ap (λ id. str_eq id "") same ∙ renamed)
            ∙ ap (λ id. (S.client.pause_instance id end.1.1).1) same,
      )
