-- ===== src/Tests/Data.antt =====
-- The inputs that the examples share: an id, an account table, and a handler's locals.
use ntut_network_and_system.Base.{
  ℕ, ◌≡◌, refl, List, ◌++◌, codes, replicate, length-replicate, some,
}
use ntut_network_and_system.Base.Int.{pos}
use ntut_network_and_system.CString.{str_eq, strncpy, terminated}
use ntut_network_and_system.Float.Sample.{Tiny, num, tiny_ops, tiny_IsOrdered}
use ntut_network_and_system.Account.{
  AccountDb, account_init, blank_account, find_from, account_find, put_account,
}
use ntut_network_and_system.Account.Invariant.{IsValid, account_init-IsValid}
use ntut_network_and_system.Account.View.{balance_of}
use ntut_network_and_system.Account.Closed.{created, created-IsValid}
use ntut_network_and_system.Protocol.{blank_packet}
use ntut_network_and_system.Server.Request.{Locals}
use ntut_network_and_system.Server.Handlers.{IsFrame}
use ntut_network_and_system.Server.Wire.{IsId}

abbrev pub alice : List ℕ
alice = codes "alice" ++ replicate 15 0

pub alice-IsId : IsId alice
unfolding terminated
alice-IsId = record { id_length = refl; id_terminated = refl }

abbrev pub fresh_table : AccountDb Tiny
fresh_table = account_init tiny_ops

pub fresh_table-IsValid : IsValid tiny_ops fresh_table
fresh_table-IsValid = account_init-IsValid tiny_ops tiny_IsOrdered

-- The table with one account, of balance 50.
abbrev pub opened_table : AccountDb Tiny
opened_table =
    created tiny_ops fresh_table fresh_table-IsValid alice (num (pos 50)) (blank_account tiny_ops)

pub opened_table-IsValid : IsValid tiny_ops opened_table
unfolding account_init
opened_table-IsValid =
    created-IsValid tiny_ops fresh_table fresh_table-IsValid alice (num (pos 50))
      (blank_account tiny_ops) refl refl refl

pub opened_table-alice : balance_of opened_table alice ≡ some (num (pos 50))
unfolding balance_of account_init account_find find_from put_account str_eq strncpy
opened_table-alice = refl

abbrev pub stack : Locals Tiny
stack = record {
  block = λ n. replicate n 171;
  number = num (pos 9);
  packet = blank_packet 0 0;
  rand_id = 77;
}

pub stack-IsFrame : IsFrame stack
stack-IsFrame = λ n. length-replicate n 171
