-- ===== src/Tests/Menus.antt =====
-- The menus of the interactive client.
use ntut_network_and_system.Base.{ℕ, ◌≡◌, refl, none, some, List, codes, replicate, done, arith}
use ntut_network_and_system.Base.Int.{pos}
use ntut_network_and_system.CString.{IsText}
use ntut_network_and_system.Float.Sample.{Tiny, num, tiny_ops, tiny_IsOrdered, tiny_IsEncoded}
use ntut_network_and_system.Otp.{OtpEntry, blank_table}
use ntut_network_and_system.Account.{AccountDb}
use ntut_network_and_system.Account.Invariant.{IsValid}
use ntut_network_and_system.Account.Ledger.{deposit, view, post}
use ntut_network_and_system.Protocol.{blank_packet}
use ntut_network_and_system.Server.OtpClient.{OtpLink}
use ntut_network_and_system.Server.Login.{otp_service}
use ntut_network_and_system.BankingClient.{Frame, Printed, make_deposit, choose}
use ntut_network_and_system.BankingClient.Session.{worker_link, typed_id, choose-Answers}
use ntut_network_and_system.Tests.Data.{opened_table, opened_table-IsValid, stack, stack-IsFrame}

abbrev otp : OtpLink (List OtpEntry)
otp = otp_service 4242 1000

abbrev pub variables : Frame Tiny
variables = record {
  account_id = replicate 20 170;
  amount = num (pos 3);
  response = replicate 268 170;
  req_packet = blank_packet 0 0;
  resp_packet = blank_packet 0 0;
  rand_id = 31;
}

abbrev word : List ℕ
word = codes "alice"

word-IsText : IsText word
word-IsText = (λ h. cc, (λ h. cc, (λ h. cc, (λ h. cc, (λ h. cc, tt)))))

choose-Answers_example :
    (shown : Printed Tiny) × (db' : AccountDb Tiny) × (choose tiny_ops
        (worker_link tiny_ops otp stack)
        variables
        (make_deposit word (some (num (pos 20))))
        (opened_table, blank_table, none)
      ≡ done (some shown, (db', blank_table, none)))
    × (shown.status
        ≡ (post tiny_ops
            (deposit (typed_id word (replicate 20 170)) (num (pos 20)))
            (view opened_table)).code)
    × IsValid tiny_ops db'
    × (view db'
        ≡ (post tiny_ops
            (deposit (typed_id word (replicate 20 170)) (num (pos 20)))
            (view opened_table)).ledger)
choose-Answers_example =
    choose-Answers tiny_ops otp tiny_IsOrdered tiny_IsEncoded stack stack-IsFrame variables
      opened_table blank_table opened_table-IsValid refl refl
      (make_deposit word (some (num (pos 20)))) word-IsText (omega arith)
