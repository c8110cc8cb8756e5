-- ===== src/Lib.antt =====
-- SimplePOP3Serv: a model of its POP3 server and what it is proved to do.
--
-- The program. POP3Server/source/POP3Session.cpp holds one session of a client. It reads a line,
-- parses it (POP3Common/POP3Command.h), and hands the command to one of two handlers: before the
-- logon that of anonymous clients, after it that of authorized users. A logon goes to
-- MailboxServiceManager (MailboxServiceCore), which locks the name of the mailbox, asks the
-- authorization manager for the storages of the user, opens them, and hands out a Mailbox that
-- owns the storages and the lock. A storage marks mails as deleted, and its destructor removes
-- their files if the session ended by QUIT.
--
-- Which file models which part:
--   Base                 helpers: tests on numbers, texts as lists of bytes, streams, outcomes
--   Protocol.CommandType POP3Common/POP3CommandType.h
--   Protocol.Status      POP3Common/POP3Status.h
--   Protocol.Parser      POP3Common/POP3Command.h
--   Protocol.Boost       the Boost functions that are called, as an interface with its laws
--   Mail.Errors          MailboxServiceCore/include/Enums.h
--   Mail.Disk            std::filesystem as the program uses it
--   Mail.SizeMap         the std::map of mail numbers and sizes
--   Mail.Storage         MailStorage.h, FileSystemMailStorage.{h,cpp} of MailboxServiceCore
--   Mail.Mailbox         Mailbox.{h,cpp} of MailboxServiceCore; Maildrop below it is what a mailbox
--                        promises, without how it stores its marks
--   Account              compact_string.h, ConsumerInfo.h, AuthorizationManager.h
--   Account.Json         RapidJSON as an interface with its laws; Serialize and Deserialize of
--                        ConsumerInfo.h, and the files that they write and read
--   Service.Registry     LockMailbox and UnlockMailbox of MailboxServiceManager.cpp
--   Service.Lock         MailboxLock.{h,cpp}
--   Service.Exclusion    the locks of all sessions as steps over one set
--   Service.Factory      FileSystemStorageFactory::create of FileSystemMailStorage.cpp
--   Service.Connect      VerifyCredentialsAndConnect of MailboxServiceManager.cpp
--   Session              POP3Server/include/POP3Session.h and POP3Server/source/POP3Session.cpp
--   Session.Told         what a client is told after the logon, from the maildrop alone
--   Session.Conversation the loop of read and write of POP3Session.h, and the conversation that a
--                        client has with the maildrop; Server.Talks has it as steps of the server
--   Server               Common/Server.h, and the lifetime of the sessions of POP3Session.{h,cpp}
--   Program              POP3Server/source/main.cpp, MailboxServiceCore/source/ConsumerInfo.cpp
--   Tests                runs of the definitions, and the theorems at concrete inputs
-- The functions have the names of the source in snake case. The modules below a component hold
-- its proofs.
--
-- State. A session is the record Session.Session of the fields that the handlers read and write;
-- the static objects that change (the set of locked names, the disk) are the record World, and
-- those that do not are Settings. A handler takes a session and the world and gives them back. What
-- ends a handler without an answer (an index past the end of a vector, std::get of another
-- alternative, a call through a null mailbox, an exception of file_size) is a Fault.
--
-- The disk. Which files open, which folders can be created and which files the system refuses to
-- remove are fields of Mail.Disk.Disk. A refused removal throws in the destructor of a storage and
-- ends the program: it is a fault of the destructor, so no step of the server follows it.
--
-- Names. A name is locked whole but unlocked up to its first NUL, so the theorems on the locks of
-- the server are about runs in which no line that is read holds a NUL (Server.Plain). The manager is
-- any; the runs under Tests are those of the program's manager, with a function for std::hash.
--
-- Numbers. A std::size_t is reduced by 2 ^ 64 where the program adds or subtracts sizes; an
-- unsigned int of a command is below 2 ^ 32. File sizes and mail numbers within one storage are
-- not reduced where they count elements of a vector.
--
-- Loops are recursion on the list that is walked. On fuel are the loop of getEmailsLengths, whose
-- rounds are the mails of the storage; the digits of a number n, with n + 1 rounds, enough since
-- each round divides by ten; the loop of read_file, for which more rounds than the file has bytes
-- are enough; and the loop of console commands, which may go on for ever: more rounds than the
-- input has characters decide whether it ends.
--
-- The server. Server.System holds the session objects, the list of sessions, and the world that
-- they share. Boost.Asio is not under the repository: which operation of a socket, a timer or the
-- acceptor ends next, with which error or line and at what time, is given by an event, and each
-- handler is one step of Server.Step. A session object is destroyed once it is not in the list and
-- no operation refers to it. At most 2 ^ 64 - 1 connections are accepted, so that identifiers are
-- not given out twice.
--
-- RapidJSON is not under the repository either: Account.Json.RapidJson holds what is called of it,
-- and RapidJsonLaws what its documentation says. A file of an account is its text, if it opens.
--
-- Not modelled: two handlers that run at the same moment in two threads, beyond what the mutexes
-- make one step; what Boost makes of an address; consumers with a
-- textual name or password, which main does not use; the asserts, as in a release build; runs in
-- which a name with a NUL is locked, beyond their steps; other
-- programs that change the disk while the server runs. `std::hash` is a function of which nothing
-- is known.
pub mod Base
pub mod Protocol
pub mod Mail
pub mod Account
pub mod Service
pub mod Session
pub mod Server
pub mod Program
pub mod Tests
