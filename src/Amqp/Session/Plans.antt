-- ===== src/Amqp/Session/Plans.antt =====
-- Code that makes a fixed list of requests, and gives up at the first that is refused.
use eventbus.Base.{
  List, [], ◌∷◌, ◌++◌, ◌≡◌, refl, sym, ap, ◌∙◌, ◌⊎◌, inl, inr, true, false, Option, none, some, map,
  append_assoc, append-nil,
}
use eventbus.Errors.{Error}
use eventbus.Amqp.Session.{
  Request, Entry, Server, Result, ok, err, Session, and_then, ◌>>=◌, return, request, answered,
  explained,
}

-- A request, with what is made of its error.
abbrev pub Planned : Type 0
Planned = Request × (Error → Error)

abbrev pub granted : Planned → Entry
granted (r, explain) = (r, true)

-- What comes after requests, if all were granted.
abbrev pub then_on :
    (List Entry → Option Error × List Entry) → Option Error × List Entry → Option Error × List Entry
then_on more (none, log) = more log
then_on more (some e, log) = (some e, log)

abbrev pub outcome {ℓ} : {A : Type ℓ} → A → Option Error × List Entry → Result A × List Entry
outcome a (none, log) = (ok a, log)
outcome a (some e, log) = (err e, log)

abbrev pub explaining : (Error → Error) → Planned → Planned
explaining f (r, explain) = (r, λ e. f (explain e))

abbrev explained_outcome : (Error → Error) → Option Error × List Entry → Option Error × List Entry
explained_outcome f (none, log) = (none, log)
explained_outcome f (some e, log) = (some (f e), log)

module _ (server : Server) where
  -- The answer to a request.
  abbrev pub answer : Planned → List Entry → Option Error → Option Error × List Entry
  answer (r, explain) log none = (none, log ++ (r, true) ∷ [])
  answer (r, explain) log (some e) = (some (explain e), log ++ (r, false) ∷ [])

  -- The plan's requests, up to the first that is refused.
  unfoldable pub run_plan : List Planned → List Entry → Option Error × List Entry
  run_plan [] log = (none, log)
  run_plan (p ∷ plan) log = then_on (run_plan plan) (answer p log (server.refuses log p.0))

  -- The code makes the plan's requests, and then returns the value.
  abbrev pub Follows {ℓ} : {A : Type ℓ} → List Planned → Session A → A → Type ℓ
  Follows plan m a = (log : List Entry) → m log ≡ outcome a (run_plan plan log)

  pub return-Follows {ℓ} : {A : Type ℓ} (a : A) → Follows [] (return a) a
  unfolding run_plan
  return-Follows a log = refl

  pub request-Follows :
      (r : Request) (explain : Error → Error)
      → Follows ((r, explain) ∷ []) (request server r explain) tt
  unfolding request run_plan
  request-Follows r explain log = go (server.refuses log r)
    where
      go :
          (o : Option Error)
          → answered r explain log o
            ≡ outcome tt (then_on (λ l. (none, l)) (answer (r, explain) log o))
      go none = refl
      go (some e) = refl

  run_plan-append :
      (plan rest : List Planned) (log : List Entry)
      → run_plan (plan ++ rest) log ≡ then_on (run_plan rest) (run_plan plan log)
  unfolding run_plan
  run_plan-append [] rest log = refl
  run_plan-append (p ∷ plan) rest log =
      go (answer p log (server.refuses log p.0)) (run_plan-append plan rest)
    where
      go :
          (a : Option Error × List Entry)
          → ((l : List Entry)
              → run_plan (plan ++ rest) l ≡ then_on (run_plan rest) (run_plan plan l))
          → then_on (run_plan (plan ++ rest)) a
            ≡ then_on (run_plan rest) (then_on (run_plan plan) a)
      go (none, l) ih = ih l
      go (some e, l) ih = refl

  -- Code followed by code follows the plan of both.
  pub bind-Follows {ℓ κ} :
      {A : Type ℓ} {B : Type κ} (plan rest : List Planned) (m : Session A) (f : A → Session B)
      → (a : A) (b : B) → Follows plan m a
      → Follows rest (f a) b
      → Follows (plan ++ rest) (m >>= f) b
  bind-Follows plan rest m f a b hm hf log =
      ap (and_then f) (hm log)
      ∙ go (run_plan plan log)
      ∙ sym (ap (outcome b) (run_plan-append plan rest log))
    where
      go :
          (r : Option Error × List Entry)
          → and_then f (outcome a r) ≡ outcome b (then_on (run_plan rest) r)
      go (none, l) = hf l
      go (some e, l) = refl

  run_plan-explaining :
      (f : Error → Error) (plan : List Planned) (log : List Entry)
      → run_plan (map (explaining f) plan) log ≡ explained_outcome f (run_plan plan log)
  unfolding run_plan
  run_plan-explaining f [] log = refl
  run_plan-explaining f (p ∷ plan) log = go (server.refuses log p.0) (run_plan-explaining f plan)
    where
      go :
          (o : Option Error)
          → ((l : List Entry)
              → run_plan (map (explaining f) plan) l ≡ explained_outcome f (run_plan plan l))
          → then_on (run_plan (map (explaining f) plan)) (answer (explaining f p) log o)
            ≡ explained_outcome f (then_on (run_plan plan) (answer p log o))
      go none ih = ih (log ++ granted p ∷ [])
      go (some e) ih = refl

  -- Code whose error is wrapped once more.
  pub explained-Follows {ℓ} :
      {A : Type ℓ} (f : Error → Error) (plan : List Planned) (m : Session A) (a : A)
      → Follows plan m a
      → Follows (map (explaining f) plan) (λ l. explained f (m l)) a
  explained-Follows f plan m a h log =
      ap (explained f) (h log)
      ∙ go (run_plan plan log)
      ∙ ap (outcome a) (sym (run_plan-explaining f plan log))
    where
      go :
          (r : Option Error × List Entry)
          → explained f (outcome a r) ≡ outcome a (explained_outcome f r)
      go (none, l) = refl
      go (some e, l) = refl

  -- All requests were granted; or one was refused, and those before it were granted.
  abbrev pub Stands : List Planned → List Entry → Option Error × List Entry → Type 0
  Stands plan log (e, log') =
      ((e ≡ none) × (log' ≡ log ++ map granted plan))
      ⊎ ((before : List Planned) × (p : Planned) × (after : List Planned) × (cause : Error) × (plan
            ≡ before ++ p ∷ after)
          × (server.refuses (log ++ map granted before) p.0 ≡ some cause)
          × (e ≡ some (p.1 cause))
          × (log' ≡ log ++ map granted before ++ (p.0, false) ∷ []))

  pub run_plan_lem : (plan : List Planned) (log : List Entry) → Stands plan log (run_plan plan log)
  unfolding run_plan
  run_plan_lem [] log = inl (refl, sym (append-nil log))
  run_plan_lem (p ∷ plan) log =
      go (server.refuses log p.0) refl (run_plan_lem plan (log ++ granted p ∷ []))
    where
      later :
          (r : Option Error × List Entry)
          → Stands plan (log ++ granted p ∷ []) r
          → Stands (p ∷ plan) log r
      later (e, log') (inl (fine, same)) =
          inl (fine, same ∙ append_assoc log (granted p ∷ []) (map granted plan))
      later (e, log') (inr (before, q, after, cause, parts, no_good, error, same)) = inr (
        p ∷ before,
        q,
        after,
        cause,
        ap (◌∷◌ p) parts,
        ap (λ l. server.refuses l q.0)
              (sym (append_assoc log (granted p ∷ []) (map granted before)))
            ∙ no_good,
        error,
        same
            ∙ ap (λ l. l ++ (q.0, false) ∷ [])
                (append_assoc log (granted p ∷ []) (map granted before)),
      )

      go :
          (o : Option Error)
          → server.refuses log p.0 ≡ o
          → Stands plan (log ++ granted p ∷ []) (run_plan plan (log ++ granted p ∷ []))
          → Stands (p ∷ plan) log (then_on (run_plan plan) (answer p log o))
      go none h ih = later (run_plan plan (log ++ granted p ∷ [])) ih
      go (some e) h ih = inr (
        [],
        p,
        plan,
        e,
        refl,
        ap (λ l. server.refuses l p.0) (append-nil log) ∙ h,
        refl,
        ap (λ l. l ++ (p.0, false) ∷ []) (sym (append-nil log)),
      )
