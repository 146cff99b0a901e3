-- ===== src/Response.antt =====
-- `BankingResponse` of common/include/protocol.h, its bytes in a packet, and `pack_response` and
-- `unpack_response` of common/src/protocol.c.
pub mod RoundTrip
use ntut_network_and_system.Base.{
  ℕ, List, ◌++◌, take, drop, replicate, Run, done, ◌>>=◌, ◌≡◌, Bool, true, false,
}
use ntut_network_and_system.Base.Int.{ℤ, pos, word_of, int_of}
use ntut_network_and_system.Float.{FloatOps}
use ntut_network_and_system.Memory.{le32, of_le32}
use ntut_network_and_system.Protocol.{BankingPacket, op_response, pack_request, unpack_request}

pub record BankingResponse (F : Type 0) : Type 0 where
  pub status : ℤ
  pub message : List ℕ
  pub balance : F

-- sizeof(BankingResponse)
abbrev pub response_size : ℕ
response_size = 268

module _ {F : Type 0} (f : FloatOps F) where
  -- The packed struct: four bytes, the message, eight bytes.
  unfoldable pub response_bytes : BankingResponse F → List ℕ
  response_bytes r = le32 (word_of r.status) ++ (r.message ++ f.to_bytes r.balance)

  unfoldable pub response_of : List ℕ → BankingResponse F
  response_of bytes = record {
    status = int_of (of_le32 bytes);
    message = take 256 (drop 4 bytes);
    balance = f.of_bytes (take 8 (drop 260 bytes));
  }

  -- `memset(&response, 0, sizeof(response))`
  abbrev pub blank_response : BankingResponse F
  blank_response = record { status = pos 0; message = replicate 256 0; balance = f.zero_f }

  unfoldable pub pack_response : ℕ → BankingPacket → BankingResponse F → Run (ℤ × BankingPacket)
  pack_response rand_id packet response =
      pack_request rand_id packet op_response (response_bytes response) response_size

-- The caller's struct is the block that the bytes are copied to.
unfoldable pub unpack_response : BankingPacket → List ℕ → Run (ℤ × List ℕ)
unpack_response packet block = unpack_request packet block response_size
