-- ===== src/Tests/SessionTests.antt =====
-- Requests to a session of the sample user.
use simple_pop3serv.Base.{
  ◌≡◌, refl, ◌++◌, arith, bytes, crlf, fault, out_of_range, ◌∷◌, true, ok, [], some, false,
}
use simple_pop3serv.Base.Stream
use simple_pop3serv.Session.{Session, new_session}
use simple_pop3serv.Session.Read.{read_impl}
use simple_pop3serv.Session.Sound.{IsSound, IsServed}
use simple_pop3serv.Session.Served.{read_impl-IsServed, read_impl-IsBlank}
use simple_pop3serv.Session.{destroy_mailbox, transaction}
use simple_pop3serv.Session.Read.{on_written}
use simple_pop3serv.Mail.Mailbox.Close.{lists_file}
use simple_pop3serv.Session.Close.{IsClosed, on_written-IsClosed, destroy_mailbox-IsClosed}
use simple_pop3serv.Mail.Mailbox.{Mailbox}
use simple_pop3serv.Service.Connect.{World}
use simple_pop3serv.Tests.MailTests.{marked-IsValid}
use simple_pop3serv.Tests.SampleDisk.{marked_storage, mailbox_of}
use simple_pop3serv.Tests.SampleBoost.{sample_boost, sample_boost-laws}
use simple_pop3serv.Tests.SampleDisk.{sample_settings, sample_world, user_name}

-- The user has been named, and the password comes.
abbrev pass_session : Session
pass_session = record new_session { request = bytes "PASS user111" ++ crlf; user_name = user_name }

pass_session-IsSound : IsSound sample_world.disk pass_session
pass_session-IsSound = record { coherent = tt; plain_name = omega arith }

abbrev blank_session : Session
blank_session = record new_session { request = crlf }

read_impl-IsServed_example :
    IsServed sample_world (read_impl sample_boost sample_settings pass_session sample_world)
unfolding Stream.is_space
read_impl-IsServed_example =
    read_impl-IsServed sample_boost-laws sample_settings sample_world (omega arith) pass_session
      (λ b. cc (b.0)) (omega arith) pass_session-IsSound

read_impl-IsBlank_example :
    read_impl sample_boost sample_settings blank_session sample_world ≡ fault out_of_range
unfolding Stream.is_space
read_impl-IsBlank_example =
    read_impl-IsBlank sample_boost-laws sample_settings sample_world blank_session (λ e. cc)
      (refl, (refl, tt))

abbrev closing_mailbox : Mailbox
closing_mailbox = mailbox_of (marked_storage ∷ [])

-- QUIT after DELE of the first mail.
abbrev quit_session : Session
quit_session = record new_session {
  state = transaction;
  user_name = user_name;
  quit_command_received = true;
  mailbox = some closing_mailbox;
}

abbrev locked_world : World
locked_world = record sample_world { active = user_name ∷ [] }

on_written-IsClosed_example :
    (world' : World) × (destroy_mailbox locked_world (on_written quit_session).0.mailbox
      ≡ ok world')
    × IsClosed locked_world closing_mailbox.name (lists_file closing_mailbox.storages) world'
on_written-IsClosed_example =
    on_written-IsClosed locked_world quit_session closing_mailbox refl (marked-IsValid, tt) refl
      (omega arith) refl (refl, tt)

destroy_mailbox-IsClosed_example :
    (world' : World) × (destroy_mailbox locked_world quit_session.mailbox ≡ ok world')
    × IsClosed locked_world closing_mailbox.name (λ q. false) world'
destroy_mailbox-IsClosed_example =
    destroy_mailbox-IsClosed locked_world quit_session closing_mailbox refl (marked-IsValid, tt)
      refl (omega arith) (refl, tt)
