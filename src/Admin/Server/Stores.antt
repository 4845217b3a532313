-- ===== src/Admin/Server/Stores.antt =====
-- The program's stores as the interfaces of the server.
use daigate.Prelude.{List}
use daigate.Keyring.Argonhash.{Crypto}
use daigate.Keyring.SqlStore.{SqlStore, sql_create, sql_revoke}
use daigate.Keyring.MemoryStore.{MemoryStore, mem_create, mem_revoke}
use daigate.Credential.Seal.{Cipher}
use daigate.Credential.Payload.{Json}
use daigate.Credential.Store as Memory
use daigate.Credential.Sqlite.{
  Sqlite, Legacy, sqlite_list_summaries, sqlite_get_summary, sqlite_snapshot_meta,
  sqlite_put_api_key,
}
use daigate.Admin.Server.{KeyStore, CredentialStore}

abbrev pub sql_key_store : Crypto → KeyStore SqlStore
sql_key_store crypto = record { create = sql_create crypto; revoke = sql_revoke }

abbrev pub memory_key_store : Crypto → KeyStore MemoryStore
memory_key_store crypto = record { create = mem_create crypto; revoke = mem_revoke }

abbrev pub sqlite_credentials : (c : Cipher) → Legacy c → Json → CredentialStore Sqlite
sqlite_credentials c legacy json = record {
  list_all = sqlite_list_summaries;
  summary_of = sqlite_get_summary;
  meta = sqlite_snapshot_meta;
  put_key = sqlite_put_api_key c legacy json;
}

-- The store in memory reads the clock once in a put; `order` is that of Go's iteration of its rows.
abbrev pub memory_credentials :
    (List Memory.CredentialRow → List Memory.CredentialRow)
    → Cipher
    → Json
    → CredentialStore Memory.Memory
memory_credentials order c json = record {
  list_all = Memory.list_summaries order;
  summary_of = Memory.get_summary;
  meta = Memory.snapshot_meta;
  put_key = λ profile key nonce now later m. Memory.put_api_key c json profile key nonce now m;
}
