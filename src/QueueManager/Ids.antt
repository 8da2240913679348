-- ===== src/QueueManager/Ids.antt =====
-- The `_id` of a queue, `${owner}-${repo}-${branch}`: when two branches share one.
use Prim.Native.String.{String}
use text.Mathlib.TextLemmas.{append_assoc}
use ugo.Base.{◌≡◌, ap, dashed}
use ugo.Base.Text.Dash.{NoDash, dashed_inj}
use ugo.QueueManager.{queue_id}

dashed_assoc : (a b c : String) → dashed (dashed a b) c ≡ dashed a (dashed b c)
dashed_assoc a b c = simp append_assoc

-- The repository `repo-a` with the branch `b` has the queue of `repo` with the branch `a-b`.
pub queue_id_shared :
    (owner repo a b : String) → queue_id owner (dashed repo a) b ≡ queue_id owner repo (dashed a b)
queue_id_shared owner repo a b = ap (dashed owner) (dashed_assoc repo a b)

-- Where no owner and no repository has a dash in its name, two queues with the same `_id` have the
-- same owner, repository and branch.
pub queue_id_inj :
    (owner repo branch owner' repo' branch' : String)
    → NoDash owner
    → NoDash owner'
    → NoDash repo
    → NoDash repo'
    → queue_id owner repo branch ≡ queue_id owner' repo' branch'
    → (owner ≡ owner') × (repo ≡ repo') × (branch ≡ branch')
queue_id_inj owner repo branch owner' repo' branch' o o' r r' e =
    let (same_owner, rest) =
      dashed_inj owner owner' (dashed repo branch) (dashed repo' branch') o o' e in
    let (same_repo, same_branch) = dashed_inj repo repo' branch branch' r r' rest in
    (same_owner, same_repo, same_branch)
