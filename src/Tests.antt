-- ===== src/Tests.antt =====
-- Runs of the definitions on concrete inputs, and the theorems at concrete inputs. `SampleBoost`
-- has functions in the place of Boost's, with the behaviour that is asked of them.
mod SampleBoost
mod SampleDisk
mod SampleJson
mod ProtocolTests
mod MailTests
mod AccountTests
mod SessionTests
mod ConversationTests
mod ServerTests
mod RunTests
mod TalksTests
mod JsonTests
mod ProgramTests
