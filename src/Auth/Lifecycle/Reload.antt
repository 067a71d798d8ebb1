-- ===== src/Auth/Lifecycle/Reload.antt =====
-- internal/auth/lifecycle.go: which tokens tryReload asks Vault about, and which it adopts.
use dotvault.Prelude.{
  ℕ, Str, str_has_eq, Bool, true, false, not, ◌&&◌, ◌||◌, List, [], ◌∷◌, ◌++◌, Option, none, some,
  ok, ◌≡◌, refl, sym, ◌∙◌, inl, inr, lookup-delete, str_eq, str_eq_iff, any_equal, is_empty, All,
  All-append, Bool-cases, Result-cases, arith, if◌then◌else◌,
}
use mathlib.Core.List.{append_assoc}
use dotvault.Auth.Denylist.{TokenDenylist, ask}
use dotvault.Auth.Lifecycle.{TokenInfo, World, Config, Manager}
use dotvault.Auth.Lifecycle.Cycle.{
  look_up, note, add_candidate, reload_candidates, try_candidates, try_reload,
}

module _ (digest : Str → Str) where
  -- To ask about one token does not change the answer about another, at the same time.
  ask-ask :
      (d : Option TokenDenylist) (now : ℕ) (a t : Str)
      → (ask digest (ask digest d now a).1 now t).0 ≡ (ask digest d now t).0
  unfolding ask
  ask-ask none now a t = refl
  ask-ask (some d) now a t =
      ground (arith, lookup-delete (digest a) (digest t) d.denied, str_eq_iff (digest a) (digest t))

  -- A token worth a request: there is one, it is not the client's, and it is not suppressed.
  abbrev pub IsFresh : Option TokenDenylist → ℕ → Str → Str → Type 0
  IsFresh d now current t =
      (is_empty t ≡ false) × (str_eq t current ≡ false) × ((ask digest d now t).0 ≡ false)

  record AreFresh (d : Option TokenDenylist) (now : ℕ) (current : Str)
      (p : List Str × Option TokenDenylist) : Type 0 where
    tokens : All (IsFresh d now current) p.0
    same : (t : Str) → (ask digest p.1 now t).0 ≡ (ask digest d now t).0

  add_candidate-AreFresh :
      (d : Option TokenDenylist) (now : ℕ) (current tok : Str) (p : List Str × Option TokenDenylist)
      → AreFresh d now current p
      → AreFresh d now current (add_candidate digest now current tok p)
  unfolding add_candidate
  add_candidate-AreFresh d now current tok (cs, den) f =
      let asked = λ (t : Str). ask-ask den now tok t ∙ f.same t in
      elim (Bool-cases (is_empty tok || str_eq tok current)) [
        | inl none' ↦ rw none' f
        | inr new ↦ elim (Bool-cases ((ask digest den now tok).0 || any_equal cs tok)) [
          | inl skip ↦ rw new (rw skip (record { tokens = f.tokens; same = asked }))
          | inr add ↦ rw new (
              rw add (record {
                tokens = All-append (IsFresh d now current) cs (tok ∷ []) f.tokens (
                  ((ground (arith, new)), (ground (arith, new)), (ground (arith, add, f.same tok))),
                  tt,
                );
                same = asked;
              }))
        ]
      ]

  either-AreFresh :
      (d : Option TokenDenylist) (now : ℕ) (current : Str) (b : Bool)
      (p q : List Str × Option TokenDenylist)
      → AreFresh d now current p
      → AreFresh d now current q
      → AreFresh d now current (if b then p else q)
  either-AreFresh d now current true p q f g = f
  either-AreFresh d now current false p q f g = g

  reload_candidates-AreFresh :
      (cfg : Config) (w : World) (now : ℕ) (m : Manager)
      → AreFresh m.denied now m.token (reload_candidates digest cfg w now m)
  unfolding reload_candidates
  reload_candidates-AreFresh cfg w now m =
      let d = m.denied in
      let start : AreFresh d now m.token ([], d) = record { tokens = tt; same = λ t. refl } in
      let file =
        either-AreFresh d now m.token cfg.has_file _ ([], d)
          (add_candidate-AreFresh d now m.token w.file_token ([], d) start) start in
      let env = add_candidate-AreFresh d now m.token w.env_token _ file in
      either-AreFresh d now m.token cfg.has_borrower _ _
        (add_candidate-AreFresh d now m.token w.borrowed _ env) env

  -- What the requests of a loop over candidates come to.
  pub record Tried (P : Str → Type 0) (w : World) (before : Manager) (r : Bool × Manager)
      : Type 0 where
    pub tried : List Str
    pub sent : r.1.lookups ≡ tried ++ before.lookups
    pub each : All P tried
    pub adopted :
        r.0 ≡ true → (info : TokenInfo) × (w.lookup_self r.1.token ≡ ok info) × P r.1.token

  try_candidates-Tried :
      (P : Str → Type 0) (w : World) (now : ℕ) (toks : List Str) (m : Manager)
      → All P toks
      → Tried P w m (try_candidates digest w now toks m)
  unfolding try_candidates
  try_candidates-Tried P w now [] m all = record {
    tried = [];
    sent = refl;
    each = tt;
    adopted = λ e. cc;
  }
  try_candidates-Tried P w now (tok ∷ toks) m all = elim (Result-cases (w.lookup_self tok)) [
    | inr (info, good) ↦
        rw (good, try_candidates)
          (record {
            tried = tok ∷ [];
            sent = refl;
            each = (all.0, tt);
            adopted = λ e. (info, good, all.0);
          })
    | inl (e, bad) ↦
        let m' = note digest now tok e (look_up tok (record m { token = tok })) in
        let rest = try_candidates-Tried P w now toks m' all.1 in
        rw (bad, try_candidates)
          (record {
            tried = rest.tried ++ (tok ∷ []);
            sent = rest.sent ∙ sym (append_assoc rest.tried (tok ∷ []) m.lookups);
            each = All-append P rest.tried (tok ∷ []) rest.each (all.0, tt);
            adopted = rest.adopted;
          })
  ]

  -- A reload asks Vault only about tokens that are not the client's and not suppressed. If it
  -- succeeds, the client's token is one of that kind that Vault accepts; if not, it is the one from
  -- before.
  pub try_reload-Tried :
      (cfg : Config) (w : World) (now : ℕ) (m : Manager)
      → Tried (IsFresh m.denied now m.token) w m (try_reload digest cfg w now m)
        × ((try_reload digest cfg w now m).0 ≡ false
            → (try_reload digest cfg w now m).1.token ≡ m.token)
  unfolding try_reload
  try_reload-Tried cfg w now m =
      let (candidates, denied) = reload_candidates digest cfg w now m in
      let m0 = record m { denied = denied } in
      let loop =
        try_candidates-Tried (IsFresh m.denied now m.token) w now candidates m0
          (reload_candidates-AreFresh cfg w now m).tokens in
      elim (Bool-cases (not cfg.has_file && not cfg.has_borrower)) [
        | inl nothing ↦
            rw (nothing, try_reload)
              (record { tried = []; sent = refl; each = tt; adopted = λ e. cc }, λ e. refl)
        | inr some_source ↦ elim (Bool-cases (try_candidates digest w now candidates m0).0) [
          | inl good ↦
              rw (some_source, try_reload)
                (rw good (
                  record {
                    tried = loop.tried;
                    sent = loop.sent;
                    each = loop.each;
                    adopted = λ e. loop.adopted good;
                  },
                  λ e. cc,
                ))
          | inr bad ↦
              rw (some_source, try_reload)
                (rw bad (
                  record {
                    tried = loop.tried;
                    sent = loop.sent;
                    each = loop.each;
                    adopted = λ e. cc;
                  },
                  λ e. refl,
                ))
        ]
      ]
