-- ===== src/SshFwd/Manager/Closing.antt =====
-- internal/sshfwd/manager.go: nothing is started after Close.
use dotvault.Prelude.{Str, Map, List, [], ◌∷◌, ◌++◌, ◌≡◌, refl, ap, ◌∙◌}
use dotvault.SshFwd.Config.{Remote}
use dotvault.SshFwd.Manager.{Manager, retire, start_missing, close}

-- A critical section, of some Reconcile or of Close. The two sections of a Reconcile hold what it
-- wants; other sections may come between them.
pub data Section : Type 0 where
  retiring starting : Map Str Remote → Section
  closing : Section

module _ (unicode fold : Str → Str) where
  unfoldable pub perform : Section → Manager → Manager
  perform (retiring wanted) m = (retire unicode fold wanted m).1
  perform (starting wanted) m = (start_missing unicode fold wanted m).1
  perform closing m = close m

  unfoldable pub perform_all : List Section → Manager → Manager
  unfolding perform
  perform_all [] m = m
  perform_all (s ∷ ss) m = perform_all ss (perform s m)

  perform-close : (s : Section) (m : Manager) → perform s (close m) ≡ close m
  unfolding perform retire start_missing close
  perform-close (retiring wanted) m = refl
  perform-close (starting wanted) m = refl
  perform-close closing m = refl

  -- After Close the sections of whatever reconciliations were under way, or come later, and further
  -- calls of Close change nothing: no remote is managed, and none is started.
  pub perform_all-close :
      (before after : List Section) (m : Manager)
      → perform_all (before ++ (closing ∷ after)) m ≡ close (perform_all before m)
  unfolding perform_all perform
  perform_all-close [] after m = stays after
    where
      stays : (ss : List Section) → perform_all ss (close m) ≡ close m
      stays [] = refl
      stays (s ∷ ss) = ap (perform_all ss) (perform-close s m) ∙ stays ss
  perform_all-close (s ∷ before) after m = perform_all-close before after (perform s m)
