-- ===== src/Archive/Accounts.antt =====
-- The part of `initialize` of src/mailarchive/db.py after the migrations, for a call without backup
-- repositories: the account rows follow the configuration.
use mailarchive.Base.{false, not, ◌&&◌, List, [], ◌∷◌, ◌++◌, str_eq, if◌then◌else◌}
use mailarchive.Base.Lists.{any}
use mailarchive.Base.Rows.{update_where}
use mailarchive.Models.{AccountConfig}
use mailarchive.Db.{Db, AccountRow, next_id}

-- `UPDATE accounts SET enabled = 0 … WHERE name NOT IN (…) AND enabled != 0`
unfoldable disable_others : List AccountConfig → List AccountRow → List AccountRow
disable_others accounts =
    update_where
      (λ (r : AccountRow).
        not (any (λ (a : AccountConfig). str_eq a.name r.name) accounts) && r.enabled)
      (λ (r : AccountRow). record r { enabled = false })

-- `INSERT INTO accounts … ON CONFLICT(name) DO UPDATE`
unfoldable upsert_account : AccountConfig → List AccountRow → List AccountRow
upsert_account account rows =
    if any (λ (r : AccountRow). str_eq r.name account.name) rows
    then update_where (λ (r : AccountRow). str_eq r.name account.name)
        (λ (r : AccountRow). record r { kind = account.kind; enabled = account.enabled }) rows
    else rows
      ++ record {
        id = next_id (λ (r : AccountRow). r.id) rows;
        name = account.name;
        kind = account.kind;
        enabled = account.enabled;
      }
        ∷ []

unfoldable upsert_accounts : List AccountConfig → List AccountRow → List AccountRow
unfolding upsert_account
upsert_accounts [] rows = rows
upsert_accounts (account ∷ accounts) rows = upsert_accounts accounts (upsert_account account rows)

unfoldable pub reconciled_accounts : List AccountConfig → List AccountRow → List AccountRow
unfolding disable_others upsert_accounts
reconciled_accounts accounts rows = upsert_accounts accounts (disable_others accounts rows)

unfoldable pub initialize : List AccountConfig → Db → Db
initialize accounts db = record db { accounts = reconciled_accounts accounts db.accounts }
