-- ===== src/Client/Request/Answers.antt =====
-- What a request of requests.go that succeeds has sent and received.
use go_amizone.Base.{
  ◌≡◌, refl, ap, ◌∙◌, Option-cases, Option, some, ◌∷◌, ◌++◌, Text, Map, Result, ok, fail, panic,
  arith,
}
use go_amizone.Client.Types.{Env, State, Request, Response, M, ◌>>=◌, wrap}
use go_amizone.Client.Request.{base_url, unread, headers_for, perform, fetch}

-- A bind that succeeds, step by step.
pub bind_ok :
    {A B : Type 0} (m : M A) (f : A → M B) (s s' : State) (b : B)
    → (m >>= f) s ≡ (s', ok b)
    → (t : State) × (a : A) × (m s ≡ (t, ok a)) × (f a t ≡ (s', ok b))
bind_ok {A} {B} m f s s' b e = go (m s).0 (m s).1 refl e
  where
    go :
        (t : State) (r : Result A)
        → m s ≡ (t, r)
        → ((λ _. (t, r)) >>= f) s ≡ (s', ok b)
        → (t : State) × (a : A) × (m s ≡ (t, ok a)) × (f a t ≡ (s', ok b))
    go t (ok a) same e = (t, a, same, e)
    go t (fail x) same e = absurd (cc)
    go t panic same e = absurd (cc)

pub bind_step :
    {A B : Type 0} (m : M A) (f : A → M B) (s t : State) (a : A)
    → m s ≡ (t, ok a)
    → (m >>= f) s ≡ f a t
bind_step {A} {B} m f s t a e = ap {B = State × Result B} (λ p. ((λ _. p) >>= f) s) e

pub wrap_step :
    {A : Type 0} (g : Text → Text) (m : M A) (s t : State) (a : A)
    → m s ≡ (t, ok a)
    → wrap g m s ≡ (t, ok a)
wrap_step {A} g m s t a e = ap {B = State × Result A} (λ p. wrap g (λ _. p) s) e

pub wrap_ok :
    {A : Type 0} (g : Text → Text) (m : M A) (s s' : State) (a : A)
    → wrap g m s ≡ (s', ok a)
    → m s ≡ (s', ok a)
wrap_ok {A} g m s s' a e = go (m s).0 (m s).1 refl e
  where
    go :
        (t : State) (r : Result A)
        → m s ≡ (t, r)
        → wrap g (λ _. (t, r)) s ≡ (s', ok a)
        → m s ≡ (s', ok a)
    go t (ok b) same e = same ∙ e
    go t (fail x) same e = absurd (cc)
    go t panic same e = absurd (cc)

module _ (env : Env) (method endpoint : Text) (body : Option Text) (extra : Map Text) where
  abbrev pub composed : Request
  composed = record {
    method = method;
    url = base_url ++ endpoint;
    headers = headers_for method extra;
    content = unread body;
  }

  -- One request was sent and nothing else changed; the answer has status 200 and a readable body.
  pub record Answered (s s' : State) (r : Response) : Type 0 where
    pub after : s' ≡ record s { sent = composed ∷ s.sent }
    pub answer : env.transport (composed ∷ s.sent) ≡ ok r
    pub status : r.status_code ≡ 200
    pub content : Text
    pub readable : r.body ≡ some content

  pub perform_ok :
      (s s' : State) (r : Response)
      → perform env method endpoint body extra s ≡ (s', ok r)
      → Answered s s' r
  unfolding perform
  perform_ok s s' r e = record {
    after = ground arith;
    answer = ground arith;
    status = ground arith;
    content = unread r.body;
    readable = ground (arith, Option-cases r.body);
  }

  pub fetch_ok :
      (s s' : State) (r : Response)
      → fetch env method endpoint body extra s ≡ (s', ok r)
      → Answered s s' r
  unfolding fetch
  fetch_ok s s' r e = perform_ok s s' r (ground arith)
