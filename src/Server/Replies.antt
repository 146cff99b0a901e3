-- ===== src/Server/Replies.antt =====
-- What the answers say: the texts of `account_create`'s results, and the balance in the answer to
-- a refused request.
use ntut_network_and_system.Base.{ℕ, List, ◌++◌, codes}
use ntut_network_and_system.CString.{c_str}
use ntut_network_and_system.Float.{FloatOps, IsOrdered}
use ntut_network_and_system.Account.{AccountDb}
use ntut_network_and_system.Account.Invariant.{IsValid}
use ntut_network_and_system.Account.Ledger.{Op, create, deposit, withdraw, query, Ledger}
use ntut_network_and_system.Server.Request.{print_message}

abbrev pub created_text : List ℕ → List ℕ
created_text id = print_message (codes "Account " ++ (c_str id ++ codes " created successfully"))

abbrev pub failed_text : List ℕ
failed_text = print_message (codes "Failed to create account")

module _ {F : Type 0} (f : FloatOps F) (ord : IsOrdered f) (db : AccountDb F)
    (v : IsValid f db) where
  abbrev pub IsTransaction : Op F → Type 0
  IsTransaction (create id b) = ⊥
  IsTransaction (deposit id x) = Unit
  IsTransaction (withdraw id x) = Unit
  IsTransaction (query id) = Unit
