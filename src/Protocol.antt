-- ===== src/Protocol.antt =====
-- The packet protocol: common/include/protocol.h and common/src/protocol.c. A packet in memory is
-- its header's fields, each as the host reads it before any `ntohs` or `ntohl`, and its data
-- array. The caller's `const void *data` is the block that it points to. The host is little-endian
-- with a 64-bit `size_t`; `rand()` is a parameter.
pub mod Codec
pub mod Bounds
pub mod Corruption
use ntut_network_and_system.Base.{
  ℕ, ◌+◌, ◌-◌, ◌%◌, ◌^◌, ◌<◌, ◌≡◌, Bool, List, [], ◌∷◌, ◌++◌, ◌==◌, ltb, replicate, length,
  if◌then◌else◌, Run, done, fault, ◌>>=◌,
}
use ntut_network_and_system.Base.Int.{ℤ, pos, neg, eqb_ℤ}
use ntut_network_and_system.Memory.{memcpy, htons, htonl, ntohs, ntohl}
use ntut_network_and_system.Crypto.{calculate_checksum}

abbrev pub max_data_size : ℕ
max_data_size = 1024

-- PROTOCOL_HEADER_SIZE and sizeof(BankingPacket)
abbrev pub header_size : ℕ
header_size = 12

abbrev pub packet_size : ℕ
packet_size = 1036

abbrev pub op_create_account : ℕ
op_create_account = 0x0001

abbrev pub op_deposit : ℕ
op_deposit = 0x0002

abbrev pub op_withdraw : ℕ
op_withdraw = 0x0003

abbrev pub op_balance : ℕ
op_balance = 0x0004

abbrev pub op_response : ℕ
op_response = 0x00FF

abbrev pub op_req_otp : ℕ
op_req_otp = 0x0005

abbrev pub op_login : ℕ
op_login = 0x0006

abbrev pub status_success : ℤ
status_success = pos 0

abbrev pub status_error : ℤ
status_error = neg 1

abbrev pub status_account_not_found : ℤ
status_account_not_found = neg 2

abbrev pub status_insufficient_funds : ℤ
status_insufficient_funds = neg 3

abbrev pub status_account_exists : ℤ
status_account_exists = neg 4

abbrev pub status_db_full : ℤ
status_db_full = neg 5

abbrev pub status_invalid_amount : ℤ
status_invalid_amount = neg 6

pub record PacketHeader : Type 0 where
  pub length_field : ℕ
  pub op_code : ℕ
  pub checksum : ℕ
  pub req_id : ℕ

pub record BankingPacket : Type 0 where
  pub header : PacketHeader
  pub payload : List ℕ

-- `ntohl(packet->header.length) - PROTOCOL_HEADER_SIZE`, in `size_t`.
abbrev pub data_length : BankingPacket → ℕ
data_length packet = (ntohl packet.header.length_field + 2 ^ 64 - header_size) % 2 ^ 64

unfoldable pub verify_packet_checksum : BankingPacket → Run ℤ
verify_packet_checksum packet = do
  calculated ← calculate_checksum packet.payload (data_length packet)
  done (if calculated == ntohs packet.header.checksum then pos 0 else neg 1)

-- The data array after `memset`.
unfoldable pub blank_data : List ℕ
blank_data = replicate max_data_size 0

-- The packet after `memset`, with the operation code and the request id.
abbrev pub blank_packet : ℕ → ℕ → BankingPacket
blank_packet rand_id opcode = record {
  header = record { length_field = 0; op_code = htons opcode; checksum = 0; req_id = rand_id };
  payload = blank_data;
}

-- The result code and the packet afterwards; one that is too large leaves the packet alone.
unfoldable pub pack_request : ℕ → BankingPacket → ℕ → List ℕ → ℕ → Run (ℤ × BankingPacket)
pack_request rand_id packet opcode block data_size =
    if ltb max_data_size data_size then done (neg 1, packet) else do
      let blank = blank_packet rand_id opcode
      bytes ← memcpy blank.payload block data_size
      calculated ← calculate_checksum bytes data_size
      done (
        pos 0,
        record {
          header = record (blank.header) {
            checksum = htons calculated;
            length_field = htonl ((header_size + data_size) % 2 ^ 32);
          };
          payload = bytes;
        },
      )

-- `unpack_request` after the checksum: the result code and the caller's block afterwards.
unfoldable pub unpack_data : BankingPacket → List ℕ → ℕ → Run (ℤ × List ℕ)
unpack_data packet block data_size =
    if ltb data_size (data_length packet)
    then done (neg 1, block)
    else do copied ← memcpy block packet.payload (data_length packet); done (pos 0, copied)

unfoldable pub unpack_request : BankingPacket → List ℕ → ℕ → Run (ℤ × List ℕ)
unfolding unpack_data
unpack_request packet block data_size = do
  verified ← verify_packet_checksum packet
  if eqb_ℤ verified (pos 0) then unpack_data packet block data_size else done (neg 1, block)
