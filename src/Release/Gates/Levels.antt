-- ===== src/Release/Gates/Levels.antt =====
-- How the level of a release depends on what it has met.
use codex_research_skill.Base.{
  Metrics, ℕ, ◌≤◌, ◌≡◌, refl, Bool, true, false, if◌then◌else◌, List, [], ◌∷◌, String, arith,
}
use codex_research_skill.Release.Gates.{
  Requirements, missing_of, is_empty, gate, Flags, flag, metric, Level, blocked, alpha, beta,
  stable, Retrieval, ReleaseAssessment, alpha_requirements, beta_requirements, stable_requirements,
  assess_release,
}

abbrev pub rank : Level → ℕ
rank blocked = 0
rank alpha = 1
rank beta = 2
rank stable = 3

-- Requirements of which those met on the left are met on the right.
abbrev Improves : Requirements → Requirements → Type 0
Improves [] [] = Unit
Improves ((_, p) ∷ ps) ((_, q) ∷ qs) = (p ≡ true → q ≡ true) × Improves ps qs
Improves [] (_ ∷ _) = ⊥
Improves (_ ∷ _) [] = ⊥

gate-Improves :
    (ps qs : Requirements) → Improves ps qs → (gate ps).passed ≡ true → (gate qs).passed ≡ true
unfolding gate
gate-Improves [] [] h k = k
gate-Improves [] (_ ∷ _) h k = elim h [ ]
gate-Improves (_ ∷ _) [] h k = elim h [ ]
gate-Improves ((_, true) ∷ ps) ((_, q) ∷ qs) (h, hs) k = ground (arith, gate-Improves ps qs hs k)
gate-Improves ((_, false) ∷ ps) ((_, q) ∷ qs) (h, hs) k = ground (arith, k)

rank-le :
    (s s' b b' a a' : Bool)
    → (s ≡ true → s' ≡ true)
    → (b ≡ true → b' ≡ true)
    → (a ≡ true → a' ≡ true)
    → rank (if s then stable else if b then beta else if a then alpha else blocked)
      ≤ rank (if s' then stable else if b' then beta else if a' then alpha else blocked)
rank-le s s' b b' a a' hs hb ha = ground arith

-- A gate with the requirements of another and one more, met before the others.
gate-first :
    (name : String) (b : Bool) (rest : Requirements)
    → (gate ((name, b) ∷ rest)).passed ≡ true
    → b ≡ true
unfolding gate
gate-first name true rest h = refl
gate-first name false rest h = ground (arith, h)

-- Whether the gates that a level names are passed, and the next one is not.
abbrev pub Earned : Level → ReleaseAssessment → Type 0
Earned blocked x = x.alpha_gate.passed ≡ false
Earned alpha x = (x.alpha_gate.missing ≡ []) × (x.beta_gate.passed ≡ false)
Earned beta x =
    (x.alpha_gate.missing ≡ []) × (x.beta_gate.missing ≡ []) × (x.stable_gate.passed ≡ false)
Earned stable x =
    (x.alpha_gate.missing ≡ []) × (x.beta_gate.missing ≡ []) × (x.stable_gate.missing ≡ [])

choose_level : Bool → Bool → Bool → Level
choose_level s b a = if s then stable else if b then beta else if a then alpha else blocked

choose_level-Earned :
    (s b a : Bool) (x : ReleaseAssessment)
    → x.stable_gate.passed ≡ s
    → x.beta_gate.passed ≡ b
    → x.alpha_gate.passed ≡ a
    → (s ≡ true → b ≡ true)
    → (b ≡ true → a ≡ true)
    → (s ≡ true → x.stable_gate.missing ≡ [])
    → (b ≡ true → x.beta_gate.missing ≡ [])
    → (a ≡ true → x.alpha_gate.missing ≡ [])
    → Earned (choose_level s b a) x
unfolding choose_level
choose_level-Earned true b a x es eb ea sb ba ms mb ma = (ma (ba (sb refl)), mb (sb refl), ms refl)
choose_level-Earned false true a x es eb ea sb ba ms mb ma = (ma (ba refl), mb refl, es)
choose_level-Earned false false true x es eb ea sb ba ms mb ma = (ma refl, eb)
choose_level-Earned false false false x es eb ea sb ba ms mb ma = ea

is_empty-eq : (xs : List String) → is_empty xs ≡ true → xs ≡ []
is_empty-eq [] h = refl
is_empty-eq (_ ∷ _) h = cc

gate-missing : (ps : Requirements) → (gate ps).passed ≡ true → (gate ps).missing ≡ []
unfolding gate
gate-missing ps h = is_empty-eq (missing_of ps) h

module _ (m : Metrics) where
  -- What a release has met, another has met too.
  pub record Better (r r' : Retrieval m) (a a' o o' : Flags) : Type 0 where
    pub metrics :
        (name : String) (minimum : ℕ)
        → metric m r name minimum ≡ true
        → metric m r' name minimum ≡ true
    pub automated : (name : String) → flag a name ≡ true → flag a' name ≡ true
    pub operator : (name : String) → flag o name ≡ true → flag o' name ≡ true

  module _ (r r' : Retrieval m) (a a' o o' : Flags) (h : Better r r' a a' o o') where
    open h use {metrics, automated, operator}

    alpha-Improves : Improves (alpha_requirements a) (alpha_requirements a')
    unfolding alpha_requirements
    alpha-Improves = (
      automated _,
      (automated _, (automated _, (automated _, (automated _, (automated _, (automated _, tt)))))),
    )

    beta-Improves :
        (p q : Bool)
        → (p ≡ true → q ≡ true)
        → Improves (beta_requirements m p r a o) (beta_requirements m q r' a' o')
    unfolding beta_requirements
    beta-Improves p q k = (
      k,
      (
        metrics _ _,
        (
          metrics _ _,
          (
            metrics _ _,
            (
              automated _,
              (automated _, (automated _, (automated _, (operator _, (operator _, tt))))),
            ),
          ),
        ),
      ),
    )

    stable-Improves :
        (p q : Bool)
        → (p ≡ true → q ≡ true)
        → Improves (stable_requirements m p r a o) (stable_requirements m q r' a' o')
    unfolding stable_requirements
    stable-Improves p q k = (
      k,
      (
        metrics _ _,
        (
          metrics _ _,
          (
            metrics _ _,
            (
              automated _,
              (
                automated _,
                (automated _, (automated _, (automated _, (automated _, (operator _, tt))))),
              ),
            ),
          ),
        ),
      ),
    )

    -- A release that has met all that another has met, and perhaps more, gets no lower level.
    pub assess_release_mono :
        rank (assess_release m r a o).level ≤ rank (assess_release m r' a' o').level
    unfolding assess_release
    assess_release_mono =
        let pa = gate-Improves _ _ alpha-Improves in
        let pb = gate-Improves _ _ (beta-Improves _ _ pa) in
        let ps = gate-Improves _ _ (stable-Improves _ _ pb) in rank-le _ _ _ _ _ _ ps pb pa

  -- The gates that the level of a release names are passed with nothing missing, and the next gate is
  -- not passed.
  pub assess_release-Earned :
      (r : Retrieval m) (a o : Flags)
      → Earned (assess_release m r a o).level (assess_release m r a o)
  unfolding assess_release choose_level beta_requirements stable_requirements
  assess_release-Earned r a o =
      choose_level-Earned _ _ _ (assess_release m r a o) refl refl refl (gate-first _ _ _)
        (gate-first _ _ _) (gate-missing _) (gate-missing _) (gate-missing _)
