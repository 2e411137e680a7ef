-- ===== src/Store/Catalog.antt =====
-- The project, host and template methods of flotilla/store.py.
use ker_sor_monitor.Prelude.{
  String, Bool, true, false, not, ◌&&◌, Option, none, some, List, [], ◌∷◌, ◌++◌, ◌==◌,
  if◌then◌else◌, any_of,
}
use ker_sor_monitor.Prelude.Text.{text_le}
use ker_sor_monitor.Prelude.Rows.{has, find, update, delete}
use ker_sor_monitor.Prelude.Sort.{order_by}
use ker_sor_monitor.Result.{ok, err, integrity_error}
use ker_sor_monitor.State.{is_terminal}
use ker_sor_monitor.Models.{Project, Host, Template}
use ker_sor_monitor.Store.Db.{Db, Tx, text_lt}

-- The Boolean says whether the row was inserted.
unfoldable pub create_project : Project → Db → Bool × Db
create_project p db =
    if has Project.id p.id db.projects
    then (false, db)
    else (true, record db { projects = db.projects ++ p ∷ [] })

unfoldable pub get_project : Db → String → Option Project
get_project db pid = find Project.id pid db.projects

abbrev project_le : Project → Project → Bool
project_le p q =
    if text_lt p.created_at q.created_at
    then true
    else if text_lt q.created_at p.created_at
    then false
    else text_le p.id q.id

unfoldable pub list_projects : Db → List Project
list_projects db = order_by project_le db.projects

unfoldable pub create_host : Host → Tx (Unit {0})
create_host h db =
    if has Host.id h.id db.hosts
    then err integrity_error
    else ok (tt, record db { hosts = db.hosts ++ h ∷ [] })

unfoldable pub list_hosts : Db → List Host
list_hosts db = order_by (λ g h. text_le g.id h.id) db.hosts

unfoldable pub get_host : Db → String → Option Host
get_host db hid = find Host.id hid db.hosts

abbrev is_host : String → Option String → Bool
is_host hid none = false
is_host hid (some h) = h == hid

unfoldable pub host_has_active_tasks : Db → String → Bool
host_has_active_tasks db hid =
    any_of (λ t. is_host hid t.target_host && not (is_terminal t.state)) db.tasks

unfoldable pub delete_host : String → Db → Db
delete_host hid db = record db { hosts = delete (λ h. h.id == hid) db.hosts }

-- `DO UPDATE SET …`: all but the id and the time of creation.
abbrev pub overwrite : Template → Template → Template
overwrite new old = record new { id = old.id; created_at = old.created_at }

unfoldable pub create_template : Template → Db → Db
create_template t db =
    if has Template.id t.id db.templates
    then record db { templates = update (λ old. old.id == t.id) (overwrite t) db.templates }
    else record db { templates = db.templates ++ t ∷ [] }

-- `ORDER BY builtin DESC, id`
abbrev template_le : Template → Template → Bool
template_le s t =
    if s.builtin && not t.builtin
    then true
    else if t.builtin && not s.builtin
    then false
    else text_le s.id t.id

unfoldable pub list_templates : Db → List Template
list_templates db = order_by template_le db.templates

unfoldable pub get_template : Db → String → Option Template
get_template db tid = find Template.id tid db.templates

unfoldable pub delete_template : String → Db → Db
delete_template tid db = record db {
  templates = delete (λ t. t.id == tid && not t.builtin) db.templates;
}
