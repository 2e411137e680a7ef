-- ===== src/Routes/Entries.antt =====
-- The handlers of flotilla/routes.py for projects, hosts and templates.
use ker_sor_monitor.Prelude.{
  ℕ, String, Bool, true, false, not, ◌&&◌, ◌||◌, Option, none, some, List, [], ◌∷◌, ◌==◌,
  if◌then◌else◌, is_some, any_of, leb, ltb, length, nat_beq,
}
use ker_sor_monitor.Prelude.Text.{codes}
use ker_sor_monitor.Result.{Result, ok, err, ◌>>=◌, http_error}
use ker_sor_monitor.Models.{Project, Host, Template, TemplateCreate}
use ker_sor_monitor.Runtime.{get_adapter}
use ker_sor_monitor.Evaluator.{get_evaluator}
use ker_sor_monitor.Store.Db.{Db, connection}
use ker_sor_monitor.Store.Catalog
use ker_sor_monitor.Store.Catalog.{get_project, get_host, host_has_active_tasks, get_template}
use ker_sor_monitor.Routes.Create.{check_id, require, known}

-- A call that writes nothing where it refuses.
abbrev pub unless {ℓ} :
    {A : Type ℓ} → Result A → Db → (A → Result (Unit {0}) × Db) → Result (Unit {0}) × Db
unless (ok a) db f = f a
unless (err e) db f = (err e, db)

abbrev pub done_with : Db → Result (Unit {0}) × Db
done_with db = (ok tt, db)

-- `same_config` says whether the two configurations are equal.
abbrev pub same_project : (Project → Project → Bool) → Project → Option Project → Result (Unit {0})
same_project same p none = err (http_error 409)
same_project same p (some old) = require (same old p) 409

abbrev pub inserted : (Project → Project → Bool) → Project → Bool × Db → Result (Unit {0}) × Db
inserted same p (true, db) = (ok tt, db)
inserted same p (false, db) = (same_project same p (get_project db p.id), db)

-- `create_project`
unfoldable pub post_project : (Project → Project → Bool) → Project → Db → Result (Unit {0}) × Db
post_project same p db =
    unless (check_id p.id) db λ _. inserted same p (Catalog.create_project p db)

abbrev has_control : List ℕ → Bool
has_control [] = false
has_control (c ∷ cs) = ltb c 32 || has_control cs

abbrev is_absolute : List ℕ → Bool
is_absolute [] = false
is_absolute (c ∷ cs) = nat_beq c b'/'

-- The test on `remote_root`.
unfoldable pub is_safe_root : String → Bool
is_safe_root s =
    leb (length (codes s)) 1024
    && not (has_control (codes s))
    && is_absolute (codes s)
    && not (s == "/")

unfoldable pub check_new_host : Db → Host → Result (Unit {0})
unfolding is_safe_root
check_new_host db h = check_id h.id >>= λ _. check_id h.ssh_alias >>= λ _.
    require (is_safe_root h.remote_root) 400 >>= λ _. require (not (is_some (get_host db h.id))) 409

-- `create_host`
unfoldable pub post_host : Host → Db → Result (Unit {0}) × Db
unfolding check_new_host
post_host h db = unless (check_new_host db h) db λ _. connection (Catalog.create_host h) db

-- `delete_host`
unfoldable pub remove_host : String → Db → Result (Unit {0}) × Db
remove_host hid db =
    unless
      (require (is_some (get_host db hid)) 404 >>= λ _.
        require (not (host_has_active_tasks db hid)) 409)
      db λ _. done_with (Catalog.delete_host hid db)

abbrev pub check_known_evaluator : Option String → Result (Unit {0})
check_known_evaluator none = ok tt
check_known_evaluator (some e) = if e == "" then ok tt else (known (get_evaluator e) >>= λ _. ok tt)

abbrev pub is_builtin : Option Template → Bool
is_builtin none = false
is_builtin (some t) = t.builtin

unfoldable pub check_template : Db → TemplateCreate → Result (Unit {0})
check_template db t = check_id t.id >>= λ _. known (get_adapter t.runtime) >>= λ _.
    require (not (t.runtime == "shell")) 400 >>= λ _. check_known_evaluator t.evaluator >>= λ _.
    require (any_of (λ e. t.effort == e) ("" ∷ "low" ∷ "medium" ∷ "high" ∷ "xhigh" ∷ "max" ∷ []))
      400
    >>= λ _. require (not (is_builtin (get_template db t.id))) 409

abbrev pub own_template : String → TemplateCreate → Template
own_template now t = record {
  id = t.id;
  name = t.name;
  spec = t.spec;
  runtime = t.runtime;
  effort = t.effort;
  evaluator = t.evaluator;
  builtin = false;
  created_at = now;
}

-- `create_template`
unfoldable pub post_template : String → TemplateCreate → Db → Result (Unit {0}) × Db
unfolding check_template
post_template now t db =
    unless (check_template db t) db λ _. done_with (Catalog.create_template (own_template now t) db)

-- `delete_template`
unfoldable pub remove_template : String → Db → Result (Unit {0}) × Db
remove_template tid db =
    unless
      (require (is_some (get_template db tid)) 404 >>= λ _.
        require (not (is_builtin (get_template db tid))) 409)
      db λ _. done_with (Catalog.delete_template tid db)

abbrev builtin : String → String → String → String → Template
builtin now id name spec = record {
  id = id;
  name = name;
  spec = spec;
  runtime = "claude_tmux";
  effort = "";
  evaluator = none;
  builtin = true;
  created_at = now;
}

abbrev pub builtin_templates : String → List Template
builtin_templates now =
    builtin now "blank" "任意任务" ""
    ∷ builtin now "write-tests" "写测试"
        "Read the code in this workspace and write comprehensive pytest tests.\nPlace test files alongside the source. Run pytest to verify all pass.\nWrite status.json with your progress."
    ∷ builtin now "code-review" "Code Review"
        "Review all code files in this workspace.\nIdentify bugs, security issues, and performance problems.\nWrite findings to review.md with severity ratings."
    ∷ builtin now "fix-bug" "修 Bug"
        "Investigate and fix the issue described below.\nWrite tests to reproduce the bug, then fix it.\nVerify all existing tests still pass.\n\nIssue: [describe the bug here]"
    ∷ builtin now "general-script" "通用任务"
        "Execute the following task in this workspace:\n\n[describe what to do]"
    ∷ []

-- The loop of `_seed_builtin_templates`.
unfoldable pub seed_templates : List Template → Db → Db
seed_templates [] db = db
seed_templates (t ∷ ts) db = seed_templates ts (Catalog.create_template t db)
