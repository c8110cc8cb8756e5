-- ===== src/Tests/SampleDisk.antt =====
-- A disk with one mail folder of two files, the account that owns it, and its mailbox.
use simple_pop3serv.Base.{ℕ, true, false, List, [], ◌∷◌, ◌++◌, Bytes, bytes}
use simple_pop3serv.Base.Decimal.{digits_value}
use simple_pop3serv.Mail.Disk.{Disk, File}
use simple_pop3serv.Mail.Errors.{file_system_mail_storage}
use simple_pop3serv.Mail.Storage.{Storage, new_storage}
use simple_pop3serv.Mail.Mailbox.{Mailbox}
use simple_pop3serv.Account.ConsumerInfo.{ConsumerInfo, MailStorageInfo, textual}
use simple_pop3serv.Account.Authorization.{AuthorizationManager, single_manager}
use simple_pop3serv.Service.Connect.{World, Settings}

abbrev pub folder : Bytes
folder = bytes "/m/user1"

abbrev pub first_path : Bytes
first_path = bytes "/m/user1/a"

abbrev pub second_path : Bytes
second_path = bytes "/m/user1/b"

abbrev mail_file : Bytes → Bytes → File
mail_file path content = record {
  folder = folder;
  path = path;
  content = content;
  regular = true;
  readable = true;
}

abbrev pub sample_disk : Disk
sample_disk = record {
  folders = folder ∷ [];
  files = mail_file first_path (bytes "Hello") ∷ mail_file second_path (bytes "Bye") ∷ [];
  can_create = λ p. false;
  refuses = λ p. false;
}

abbrev pub sample_storage : Storage
sample_storage = new_storage (first_path ∷ second_path ∷ [])

-- The first of the two mails is marked.
abbrev pub marked_storage : Storage
marked_storage = record sample_storage { emails_to_be_deleted = 0 ∷ [] }

abbrev pub user_name : Bytes
user_name = bytes "user1"

abbrev pub mailbox_of : List Storage → Mailbox
mailbox_of ss = record {
  name = user_name;
  storages = ss;
  lock = record { name = user_name; acquired = true };
}

abbrev pub sample_hash : Bytes → ℕ
sample_hash = digits_value 1

abbrev pub sample_info : MailStorageInfo
sample_info = record {
  storage_type = file_system_mail_storage;
  options = record { name = bytes "path" ++ 0 ∷ []; value = textual folder } ∷ [];
}

abbrev pub sample_consumer : ConsumerInfo
sample_consumer = record {
  name = sample_hash user_name;
  password = sample_hash (bytes "user111");
  storages = sample_info ∷ [];
}

-- The manager of the program, with that account.
abbrev pub sample_manager : AuthorizationManager
sample_manager = single_manager sample_hash (sample_consumer ∷ [])

abbrev pub sample_settings : Settings
sample_settings = record { manager = sample_manager; default_path = bytes "/m" }

abbrev pub sample_world : World
sample_world = record { active = []; disk = sample_disk }
