-- ===== src/Tests.antt =====
-- Runs on concrete inputs: each theorem with hypotheses at an input that meets them.
mod Cache
mod Auth
mod Client
mod Schedule
mod Wifi
mod Captcha
mod Feedback
mod Attendance
mod Forms
mod Tls
mod Service
mod Hack
mod Results
mod Setup
mod Instruments
